-- ===== src/Proxy/Tests.antt =====
-- Runs of proxylab-handout on small inputs, and the theorems at them.
use cmu_ics.Prelude.{
  ℕ, zero, suc, ◌<◌, ◌≡◌, refl, none, some, List, [], ◌∷◌, ◌++◌, get_elem?, set, replicate, arith,
}
use cmu_ics.Shell.Parse.{cut_at}
use cmu_ics.Proxy.Queue.{Queue, queue_init, queue_push, main_pushes}
use cmu_ics.Proxy.Queue.Fifo.{IsQueue, InOrder, at_start, after, Reach-InOrder}
use cmu_ics.Proxy.Lock
use cmu_ics.Proxy.Lock.{Lock, idle, IsLock, Reach-IsLock}
use cmu_ics.Proxy.Cache.{Entry, Cache, start, find_url, cache_src, cache_add}
use cmu_ics.Proxy.Cache.Table.{AllFrom}
use cmu_ics.Proxy.Cache.Answers.{
  IsCache, Fits, written, cache_add-AllFrom, cache_add-IsCache, cache_src-cache_add,
}
use cmu_ics.Proxy.Uri.{
  Uri, parse_uri, skip_white, take_word, with_field, after_slashes, port_and_path, without_port,
  home, port_80,
}
use cmu_ics.Proxy.Uri.Print.{IsName, IsPath, print_uri, lacks, no_spaces, parse_uri-print}
use cmu_ics.Proxy.Headers.{
  build_headers, request_hdr, crlf, connection_name, proxy_connection_name, close_value,
  starts_with, is_crlf, Ordinary, build_headers-Ordinary,
}

-- A queue of two places, after the descriptor 4.
abbrev two_places : Queue
two_places = queue_init 2 (0 ∷ 0 ∷ [])

abbrev one_held : Queue
one_held = record { buf = 4 ∷ 0 ∷ []; front = 0; rear = 1; cap = 2; size = 1 }

pushed : queue_push two_places 4 ≡ some one_held
unfolding queue_push
pushed = refl

one_held-IsQueue : IsQueue one_held
one_held-IsQueue = record {
  room = omega arith;
  whole = refl;
  starts = omega arith;
  ends = refl;
  fits = omega arith;
}

Reach-InOrder_example : InOrder (one_held, 4 ∷ [], [])
Reach-InOrder_example =
    Reach-InOrder 2 (0 ∷ 0 ∷ []) (one_held, 4 ∷ [], []) (omega arith) refl
      (after _ _ at_start (main_pushes two_places one_held 4 [] [] pushed))

-- A reader is in the cache when a writer comes.
abbrev one_reader : Lock
one_reader = record idle { read_cnt = 1; reading = 1 }

abbrev writer_waits : Lock
writer_waits = record idle { read_cnt = 1; reading = 1; writers_asleep = 1 }

enters : Lock.enter_reader idle ≡ one_reader
unfolding Lock.enter_reader Lock.test_reader
enters = refl

waits : Lock.test_writer one_reader ≡ writer_waits
unfolding Lock.test_writer
waits = refl

writer_waits-Reach : Lock.Reach writer_waits
unfolding Lock.enter_reader Lock.test_reader Lock.test_writer
writer_waits-Reach =
    Lock.after one_reader writer_waits
      (Lock.after idle one_reader Lock.at_start (Lock.reader_comes idle))
      (Lock.writer_comes one_reader)

Reach-IsLock_example : IsLock writer_waits
Reach-IsLock_example = Reach-IsLock writer_waits writer_waits-Reach

start-IsCache : IsCache start
start-IsCache = record {
  slots = refl;
  used = omega arith;
  past = λ i e lt at. absurd (omega arith);
}

start-Fits : Fits start (1 ∷ []) (7 ∷ 8 ∷ [])
start-Fits = (omega arith, omega arith, omega arith)

nothing_yet : find_url 0 start.caches (1 ∷ []) ≡ none
unfolding find_url
nothing_yet = refl

cache_src-cache_add_example :
    (c' : Cache) × (c'' : Cache) × (cache_add start (1 ∷ []) (7 ∷ 8 ∷ []) ≡ some c')
    × (cache_src c' (1 ∷ []) ≡ some (some (7 ∷ 8 ∷ []), c''))
cache_src-cache_add_example =
    cache_src-cache_add start (1 ∷ []) (7 ∷ 8 ∷ []) start-IsCache start-Fits (omega arith)
      nothing_yet

start-takes_one : (c' : Cache) × (cache_add start (1 ∷ []) (7 ∷ 8 ∷ []) ≡ some c') × IsCache c'
start-takes_one = cache_add-IsCache start (1 ∷ []) (7 ∷ 8 ∷ []) start-IsCache start-Fits

abbrev used_at : ℕ → Entry
used_at t = record { url = 1 ∷ []; size = 1; timestp = t; content = 9 ∷ [] }

abbrev full : Cache
full = record {
  caches = used_at 12 ∷ used_at 3 ∷ replicate 8 (used_at 5);
  timestp = 13;
  cache_size = 10;
}

full-past : (i : ℕ) (e : Entry) → i < 10 → get_elem? full.caches i ≡ some e → e.timestp < 13
full-past i e lt at = old full.caches i e at (
  omega arith,
  (
    omega arith,
    (
      omega arith,
      (
        omega arith,
        (
          omega arith,
          (omega arith, (omega arith, (omega arith, (omega arith, (omega arith, tt))))),
        ),
      ),
    ),
  ),
)
  where
    Below : List Entry → Type 0
    Below [] = Unit {0}
    Below (x ∷ xs) = (x.timestp < 13) × Below xs

    old :
        (es : List Entry) (i : ℕ) (e : Entry) → get_elem? es i ≡ some e → Below es → e.timestp < 13
    old [] i e at b = absurd (cc)
    old (x ∷ xs) zero e at b = ground arith
    old (x ∷ xs) (suc i) e at b = old xs i e at b.1

full-IsCache : IsCache full
full-IsCache = record { slots = refl; used = omega arith; past = full-past }

cache_add-AllFrom_example :
    (j : ℕ) × (e : Entry) × (c' : Cache) × (cache_add full (2 ∷ []) (7 ∷ []) ≡ some c')
    × (get_elem? full.caches j ≡ some e)
    × AllFrom e.timestp full.caches
    × (c'.caches ≡ set full.caches j (written full (2 ∷ []) (7 ∷ []) e))
cache_add-AllFrom_example =
    cache_add-AllFrom full (2 ∷ []) (7 ∷ []) full-IsCache (omega arith, omega arith, omega arith)
      refl

-- "h", "81" and "a"
abbrev host_h : List ℕ
host_h = b'h' ∷ []

abbrev port_81 : List ℕ
port_81 = b'8' ∷ b'1' ∷ []

host_h-IsName : IsName host_h
unfolding lacks no_spaces
host_h-IsName = record { plain = refl; no_colon = refl; no_slash = refl; short = omega arith }

port_81-IsName : IsName port_81
unfolding lacks no_spaces
port_81-IsName = record { plain = refl; no_colon = refl; no_slash = refl; short = omega arith }

letter-IsPath : IsPath (b'a' ∷ [])
unfolding no_spaces
letter-IsPath = record { plain = refl; short = omega arith }

-- http://h:81/a
parse_uri-print_example :
    parse_uri (print_uri host_h (some port_81) (some (b'a' ∷ [])))
    ≡ some (record { host = host_h; port = port_81; path = b'/' ∷ b'a' ∷ [] })
parse_uri-print_example =
    parse_uri-print host_h (some port_81) (some (b'a' ∷ [])) host_h-IsName port_81-IsName
      letter-IsPath

-- http://h/a:b has no port, but is read as host `h/a` with port `b`.
colon_in_path :
    parse_uri (print_uri host_h none (some (b'a' ∷ b':' ∷ b'b' ∷ [])))
    ≡ some (record { host = b'h' ∷ b'/' ∷ b'a' ∷ []; port = b'b' ∷ []; path = home })
unfolding parse_uri after_slashes cut_at port_and_path without_port with_field skip_white take_word
colon_in_path = refl

-- A request with the one header `A`.
abbrev request : Uri
request = record { host = host_h; port = port_80; path = home }

header_a-Ordinary : Ordinary ((b'A' ∷ []) ∷ [])
unfolding is_crlf starts_with
header_a-Ordinary = (refl, refl, omega arith, tt)

build_headers-Ordinary_example :
    build_headers request ((b'A' ∷ []) ∷ crlf ∷ []) [] []
    ≡ some (
        request_hdr request
        ++ ((b'A' ∷ [])
            ++ ((connection_name ++ close_value)
                ++ ((proxy_connection_name ++ close_value) ++ ([] ++ ([] ++ crlf))))))
build_headers-Ordinary_example =
    build_headers-Ordinary request ((b'A' ∷ []) ∷ []) [] [] header_a-Ordinary (omega arith)
      (omega arith) (omega arith)
