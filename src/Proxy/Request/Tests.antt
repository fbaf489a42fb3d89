-- ===== src/Proxy/Request/Tests.antt =====
-- A request of proxylab-handout/proxy.c, and the next one for the same URI.
use cmu_ics.Prelude.{ℕ, ◌≡◌, refl, none, some, List, [], ◌∷◌, true, ◌==◌, replicate}
use cmu_ics.Proxy.Cache.{Cache, start, max_object_size, same_text}
use cmu_ics.Proxy.Uri.{skip_white, take_word}
use cmu_ics.Proxy.Request.{
  Network, Arrays, do_request, connect_loop, unfinished, served, clienterror,
}
use cmu_ics.Proxy.Request.Serves.{request, connect_loop-unfinished}

abbrev uri : List ℕ
uri = b'a' ∷ []

-- "GET a H\r\n"
abbrev line : List ℕ
line = b'G' ∷ b'E' ∷ b'T' ∷ b' ' ∷ b'a' ∷ b' ' ∷ b'H' ∷ 13 ∷ 10 ∷ []

-- One address for every host; it answers with two pieces.
abbrev net : Network
net = record {
  resolve = λ host port. some (5 ∷ []);
  connects = λ round a. true;
  answer = λ a request. (1 ∷ 2 ∷ []) ∷ (3 ∷ []) ∷ [];
}

abbrev arrays : Arrays
arrays = record { other_hdr = []; cache = replicate max_object_size 0; agent = [] }

-- Three addresses, of which only the last would answer.
connect_loop-unfinished_example :
    connect_loop 100 0 (λ k a. a == 7) (5 ∷ 6 ∷ 7 ∷ []) (5 ∷ 6 ∷ 7 ∷ []) ≡ unfinished
connect_loop-unfinished_example =
    connect_loop-unfinished 100 (λ k a. a == 7) 5 6 (7 ∷ []) refl (λ k. refl)

-- Another method is refused, and nothing else is done.
refused :
    do_request 1 arrays net ((b'P' ∷ b' ' ∷ b'a' ∷ b' ' ∷ b'H' ∷ []) ∷ []) start
    ≡ served (record { to_client = clienterror (b'P' ∷ []); to_server = none; cache = start })
unfolding do_request skip_white same_text take_word
refused = refl
