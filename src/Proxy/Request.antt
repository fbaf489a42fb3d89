-- ===== src/Proxy/Request.antt =====
-- `do_request` of proxylab-handout/proxy.c from the request line on, over the lines that the client sends and a
-- network that is an argument. The texts of `clienterror` are those of its only call.
pub mod Serves
mod Tests
use cmu_ics.Prelude.{
  ℕ, zero, suc, ◌+◌, Option, none, some, List, [], ◌∷◌, ◌++◌, map, Bool, ◌==◌, if◌then◌else◌, drop,
  length,
}
use cmu_ics.Proxy.Cache.{Cache, cache_src, cache_add, same_text}
use cmu_ics.Proxy.Uri.{Uri, is_space, skip_white, take_word, parse_uri}
use cmu_ics.Proxy.Headers.{lower, crlf, build_headers}
use cmu_ics.Proxy.Relay.{copy_of}

abbrev status_line : List ℕ
status_line =
    b'H' ∷ b'T' ∷ b'T' ∷ b'P' ∷ b'/' ∷ b'1' ∷ b'.' ∷ b'0' ∷ b' ' ∷ b'5' ∷ b'0' ∷ b'1' ∷ b' ' ∷ b'N'
    ∷ b'o' ∷ b't' ∷ b' ' ∷ b'I' ∷ b'm' ∷ b'p' ∷ b'l' ∷ b'e' ∷ b'm' ∷ b'e' ∷ b'n' ∷ b't' ∷ b'e'
    ∷ b'd' ∷ 13 ∷ 10 ∷ []

abbrev content_type : List ℕ
content_type =
    b'C' ∷ b'o' ∷ b'n' ∷ b't' ∷ b'e' ∷ b'n' ∷ b't' ∷ b'-' ∷ b't' ∷ b'y' ∷ b'p' ∷ b'e' ∷ b':' ∷ b' '
    ∷ b't' ∷ b'e' ∷ b'x' ∷ b't' ∷ b'/' ∷ b'h' ∷ b't' ∷ b'm' ∷ b'l' ∷ 13 ∷ 10 ∷ 13 ∷ 10 ∷ []

abbrev title : List ℕ
title =
    b'<' ∷ b'h' ∷ b't' ∷ b'm' ∷ b'l' ∷ b'>' ∷ b'<' ∷ b't' ∷ b'i' ∷ b't' ∷ b'l' ∷ b'e' ∷ b'>' ∷ b'T'
    ∷ b'i' ∷ b'n' ∷ b'y' ∷ b' ' ∷ b'E' ∷ b'r' ∷ b'r' ∷ b'o' ∷ b'r' ∷ b'<' ∷ b'/' ∷ b't' ∷ b'i'
    ∷ b't' ∷ b'l' ∷ b'e' ∷ b'>' ∷ []

abbrev body : List ℕ
body =
    b'<' ∷ b'b' ∷ b'o' ∷ b'd' ∷ b'y' ∷ b' ' ∷ b'b' ∷ b'g' ∷ b'c' ∷ b'o' ∷ b'l' ∷ b'o' ∷ b'r' ∷ b'='
    ∷ b'f' ∷ b'f' ∷ b'f' ∷ b'f' ∷ b'f' ∷ b'f' ∷ b'>' ∷ 13 ∷ 10 ∷ []

abbrev reason : List ℕ
reason =
    b'5' ∷ b'0' ∷ b'1' ∷ b':' ∷ b' ' ∷ b'N' ∷ b'o' ∷ b't' ∷ b' ' ∷ b'I' ∷ b'm' ∷ b'p' ∷ b'l' ∷ b'e'
    ∷ b'm' ∷ b'e' ∷ b'n' ∷ b't' ∷ b'e' ∷ b'd' ∷ 13 ∷ 10 ∷ []

abbrev message : List ℕ
message =
    b'<' ∷ b'p' ∷ b'>' ∷ b'T' ∷ b'i' ∷ b'n' ∷ b'y' ∷ b' ' ∷ b'd' ∷ b'o' ∷ b'e' ∷ b's' ∷ b' ' ∷ b'n'
    ∷ b'o' ∷ b't' ∷ b' ' ∷ b'i' ∷ b'm' ∷ b'p' ∷ b'l' ∷ b'e' ∷ b'm' ∷ b'e' ∷ b'n' ∷ b't' ∷ b' '
    ∷ b't' ∷ b'h' ∷ b'i' ∷ b's' ∷ b' ' ∷ b'm' ∷ b'e' ∷ b't' ∷ b'h' ∷ b'o' ∷ b'd' ∷ b':' ∷ b' ' ∷ []

abbrev signature : List ℕ
signature =
    b'<' ∷ b'h' ∷ b'r' ∷ b'>' ∷ b'<' ∷ b'e' ∷ b'm' ∷ b'>' ∷ b'T' ∷ b'h' ∷ b'e' ∷ b' ' ∷ b'T' ∷ b'i'
    ∷ b'n' ∷ b'y' ∷ b' ' ∷ b'W' ∷ b'e' ∷ b'b' ∷ b' ' ∷ b's' ∷ b'e' ∷ b'r' ∷ b'v' ∷ b'e' ∷ b'r'
    ∷ b'<' ∷ b'/' ∷ b'e' ∷ b'm' ∷ b'>' ∷ 13 ∷ 10 ∷ []

-- `clienterror(fd, method, "501", "Not Implemented", "Tiny does not implement this method")`
unfoldable pub clienterror : List ℕ → List ℕ
clienterror cause =
    status_line
    ++ (content_type
        ++ (title ++ (body ++ (reason ++ (message ++ (cause ++ (crlf ++ signature)))))))

unfoldable pub drop_word : List ℕ → List ℕ
drop_word [] = []
drop_word (c ∷ s) = if is_space c then c ∷ s else drop_word s

-- `sscanf(buf, "%s %s %s", method, uri, version)`: the first two words, when there are three.
unfoldable pub request_line : List ℕ → Option (List ℕ × List ℕ)
unfolding drop_word
request_line buf =
    let first = skip_white buf in
    let second = skip_white (drop_word first) in
    let third = skip_white (drop_word second) in
    if length third == 0 then none else some (take_word first, take_word second)

-- `!strcasecmp(method, "GET")`
abbrev pub is_get : List ℕ → Bool
is_get method = same_text (map lower method) (b'g' ∷ b'e' ∷ b't' ∷ [])

-- What `getaddrinfo` returns for a host and a port; whether `socket` and `connect` succeed for an address in a round of
-- the loop; and what `Rio_readlineb` reads, piece by piece, from the server at an address when it is
-- sent a request.
pub record Network : Type 0 where
  pub resolve : List ℕ → List ℕ → Option (List ℕ)
  pub connects : ℕ → ℕ → Bool
  pub answer : ℕ → List ℕ → List (List ℕ)

pub data Connection : Type 0 where
  connected : ℕ → Connection
  no_server : Connection
  unfinished : Connection

-- The loop over the addresses from `ptr` on. A round that fails goes on to the second address of the whole list.
unfoldable pub connect_loop : ℕ → ℕ → (ℕ → ℕ → Bool) → List ℕ → List ℕ → Connection
connect_loop zero round connects list_ptr ptr = unfinished
connect_loop (suc fuel) round connects list_ptr [] = no_server
connect_loop (suc fuel) round connects list_ptr (a ∷ ptr) =
    let rest = connect_loop fuel (round + 1) connects list_ptr (drop 1 list_ptr) in
    if connects round a then connected a else rest

-- What one request has sent to the client and to a server, and the cache after it.
pub record Served : Type 0 where
  pub to_client : List ℕ
  pub to_server : Option (List ℕ)
  pub cache : Cache

pub data Result : Type 0 where
  fault : Result
  hangs : Result
  served : Served → Result

-- What the arrays that are not initialised hold, and the constant `user_agent_hdr`.
pub record Arrays : Type 0 where
  pub other_hdr : List ℕ
  pub cache : List ℕ
  pub agent : List ℕ

-- Behind the loop that passes the answer on: `sent`, with what is to be kept.
abbrev pub kept : List ℕ → List ℕ → Cache → List ℕ → Option Cache → Result
kept uri request c sent none = fault
kept uri request c sent (some c') =
    served (record { to_client = sent; to_server = some request; cache = c' })

abbrev pub relayed : List ℕ → List ℕ → Cache → List ℕ × Option (List ℕ) → Result
relayed uri request c (sent, none) =
    served (record { to_client = sent; to_server = some request; cache = c })
relayed uri request c (sent, some body) = kept uri request c sent (cache_add c uri body)

module _ (fuel : ℕ) (arrays : Arrays) (net : Network) where
  -- Behind the loop that connects.
  abbrev pub forwarded : List ℕ → List ℕ → Cache → Connection → Result
  forwarded uri request c unfinished = hangs
  forwarded uri request c no_server =
      served (record { to_client = []; to_server = none; cache = c })
  forwarded uri request c (connected a) =
      relayed uri request c (copy_of (net.answer a request) arrays.cache)

  -- Behind `getaddrinfo`.
  abbrev pub resolved : List ℕ → List ℕ → Cache → Option (List ℕ) → Result
  resolved uri request c none = served (record { to_client = []; to_server = none; cache = c })
  resolved uri request c (some list) =
      forwarded uri request c (connect_loop fuel 0 net.connects list list)

  -- Behind `build_headers`.
  abbrev pub composed : List ℕ → Uri → Cache → Option (List ℕ) → Result
  composed uri u c none = fault
  composed uri u c (some request) = resolved uri request c (net.resolve u.host u.port)

  -- Behind `parse_uri`.
  abbrev pub fetched : List ℕ → List (List ℕ) → Cache → Option Uri → Result
  fetched uri headers c none = fault
  fetched uri headers c (some u) =
      composed uri u c (build_headers u headers arrays.agent arrays.other_hdr)

  -- Behind `cache_src`.
  abbrev pub looked_up : List ℕ → List (List ℕ) → Option (Option (List ℕ) × Cache) → Result
  looked_up uri headers none = fault
  looked_up uri headers (some (some answer, c)) =
      served (record { to_client = answer; to_server = none; cache = c })
  looked_up uri headers (some (none, c)) = fetched uri headers c (parse_uri uri)

  -- Behind `sscanf`.
  abbrev pub requested : List (List ℕ) → Cache → Option (List ℕ × List ℕ) → Result
  requested headers c none = served (record { to_client = []; to_server = none; cache = c })
  requested headers c (some (method, uri)) =
      if is_get method
      then looked_up uri headers (cache_src c uri)
      else served (record { to_client = clienterror method; to_server = none; cache = c })

  unfoldable pub do_request : List (List ℕ) → Cache → Result
  unfolding request_line
  do_request [] c = served (record { to_client = []; to_server = none; cache = c })
  do_request (buf ∷ headers) c = requested headers c (request_line buf)
