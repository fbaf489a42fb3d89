-- ===== src/Proxy/Headers.antt =====
-- `build_headers` of proxylab-handout/proxy.c over the lines that `Rio_readlineb` returns. The array
-- `other_hdr` is not initialised: `garbage` is the text that it holds at first. A text
-- that is longer than its array of `MAXLINE` bytes is a fault, `none`.
use cmu_ics.Prelude.{
  ltb, length, Option, some, none, ◌<◌, ℕ, ◌+◌, ◌≡◌, refl, List, [], ◌∷◌, ◌++◌, map, Bool, true,
  false, not, ◌&&◌, ◌||◌, leb, ◌==◌, if◌then◌else◌, arith,
}
use cmu_ics.Proxy.Uri.{Uri}

-- `!strncmp(s, prefix, length prefix)`
unfoldable pub starts_with : List ℕ → List ℕ → Bool
starts_with [] s = true
starts_with (c ∷ prefix) [] = false
starts_with (c ∷ prefix) (d ∷ s) = let rest = starts_with prefix s in if c == d then rest else false

abbrev pub lower : ℕ → ℕ
lower c = if leb b'A' c && leb c b'Z' then c + 32 else c

-- `!strncasecmp(s, prefix, length prefix)`
unfoldable pub starts_with_case : List ℕ → List ℕ → Bool
unfolding starts_with
starts_with_case prefix s = starts_with (map lower prefix) (map lower s)

-- "\r\n", "HOST", "User-Agent", "Proxy-Connection" and "Connection"
abbrev pub crlf : List ℕ
crlf = 13 ∷ 10 ∷ []

abbrev pub host_name : List ℕ
host_name = b'H' ∷ b'O' ∷ b'S' ∷ b'T' ∷ []

abbrev pub connection_name : List ℕ
connection_name = b'C' ∷ b'o' ∷ b'n' ∷ b'n' ∷ b'e' ∷ b'c' ∷ b't' ∷ b'i' ∷ b'o' ∷ b'n' ∷ []

abbrev pub user_agent_name : List ℕ
user_agent_name = b'U' ∷ b's' ∷ b'e' ∷ b'r' ∷ b'-' ∷ b'A' ∷ b'g' ∷ b'e' ∷ b'n' ∷ b't' ∷ []

abbrev pub proxy_connection_name : List ℕ
proxy_connection_name = (b'P' ∷ b'r' ∷ b'o' ∷ b'x' ∷ b'y' ∷ b'-' ∷ []) ++ connection_name

abbrev pub close_value : List ℕ
close_value = b':' ∷ b' ' ∷ b'c' ∷ b'l' ∷ b'o' ∷ b's' ∷ b'e' ∷ crlf

unfoldable pub is_crlf : List ℕ → Bool
is_crlf (c ∷ d ∷ []) = c == 13 && d == 10
is_crlf [] = false
is_crlf (c ∷ []) = false
is_crlf (c ∷ d ∷ e ∷ s) = false

-- `MAXLINE`, the size of the arrays, and whether a text fits in one, with the NUL at its end.
abbrev pub max_line : ℕ
max_line = 8192

abbrev pub fits : List ℕ → Bool
fits s = ltb (length s) max_line

-- The loop over the lines of the request, up to the blank one: `host_hdr` and `other_hdr`. A text that does not
-- fit is a fault.
unfoldable pub read_headers : List (List ℕ) → List ℕ → List ℕ → Option (List ℕ × List ℕ)
unfolding starts_with starts_with_case is_crlf
read_headers [] host_hdr other_hdr = some (host_hdr, other_hdr)
read_headers (buf ∷ lines) host_hdr other_hdr =
    let copied = read_headers lines buf other_hdr in
    let skipped = read_headers lines host_hdr other_hdr in
    let added = read_headers lines host_hdr (other_hdr ++ buf) in
    if is_crlf buf
    then some (host_hdr, other_hdr)
    else if not (starts_with host_name buf)
    then if fits buf then copied else none
    else if starts_with_case user_agent_name buf
        || (starts_with_case proxy_connection_name buf || starts_with_case connection_name buf)
    then skipped
    else if fits (other_hdr ++ buf)
    then added
    else none

-- "GET %s HTTP/1.0\r\n" and "HOST: %s\r\n"
abbrev pub request_hdr : Uri → List ℕ
request_hdr u =
    (b'G' ∷ b'E' ∷ b'T' ∷ b' ' ∷ [])
    ++ (u.path ++ ((b' ' ∷ b'H' ∷ b'T' ∷ b'T' ∷ b'P' ∷ b'/' ∷ b'1' ∷ b'.' ∷ b'0' ∷ []) ++ crlf))

abbrev pub own_host_hdr : Uri → List ℕ
own_host_hdr u = host_name ++ ((b':' ∷ b' ' ∷ []) ++ (u.host ++ crlf))

-- The last `sprintf`. `agent` is the constant `user_agent_hdr`.
abbrev pub header_of : Uri → List ℕ → List ℕ → List ℕ → List ℕ
header_of u agent host_hdr other_hdr =
    request_hdr u
    ++ (host_hdr
        ++ ((connection_name ++ close_value)
            ++ ((proxy_connection_name ++ close_value) ++ (agent ++ (other_hdr ++ crlf)))))

abbrev pub print_header : Uri → List ℕ → Option (List ℕ × List ℕ) → Option (List ℕ)
print_header u agent none = none
print_header u agent (some (host_hdr, other_hdr)) =
    if fits (header_of u agent host_hdr other_hdr)
    then some (header_of u agent host_hdr other_hdr)
    else none

-- What is sent to the server.
unfoldable pub build_headers : Uri → List (List ℕ) → List ℕ → List ℕ → Option (List ℕ)
unfolding read_headers
build_headers u lines agent garbage =
    if fits (request_hdr u) && fits (own_host_hdr u)
    then print_header u agent (read_headers lines (own_host_hdr u) garbage)
    else none

-- The last of the lines, or `first` if there is none.
abbrev pub last_or : List ℕ → List (List ℕ) → List ℕ
last_or first [] = first
last_or first (x ∷ xs) = last_or x xs

-- No line is blank or begins with `HOST`, and every line fits in `buf`.
abbrev pub Ordinary : List (List ℕ) → Type 0
Ordinary [] = Unit {0}
Ordinary (x ∷ xs) =
    (is_crlf x ≡ false) × (starts_with host_name x ≡ false) × (length x < max_line) × Ordinary xs

-- After lines of this kind the last of them is the host header, and no other line is kept.
read_headers-Ordinary :
    (lines : List (List ℕ)) (host_hdr other_hdr : List ℕ)
    → Ordinary lines
    → read_headers (lines ++ (crlf ∷ [])) host_hdr other_hdr
      ≡ some (last_or host_hdr lines, other_hdr)
unfolding read_headers is_crlf
read_headers-Ordinary [] host_hdr other_hdr v = refl
read_headers-Ordinary (x ∷ xs) host_hdr other_hdr (some_line, other, short, v) =
    let room : fits x ≡ true = ground (arith, short) in
    rw (some_line, other, room) (read_headers-Ordinary xs x other_hdr v)

-- When no header of the request begins with `HOST` in capitals, and all texts fit in their arrays, the last
-- of the headers, whatever it is, takes the place of the host header that `build_headers` made; the
-- others are not passed on, and in their place goes out what the array held before.
pub build_headers-Ordinary :
    (u : Uri) (lines : List (List ℕ)) (agent garbage : List ℕ)
    → Ordinary lines
    → length (own_host_hdr u) < max_line
    → length (request_hdr u) < max_line
    → length (header_of u agent (last_or (own_host_hdr u) lines) garbage) < max_line
    → build_headers u (lines ++ (crlf ∷ [])) agent garbage
      ≡ some (
          request_hdr u
          ++ (last_or (own_host_hdr u) lines
              ++ ((connection_name ++ close_value)
                  ++ ((proxy_connection_name ++ close_value) ++ (agent ++ (garbage ++ crlf))))))
unfolding build_headers
build_headers-Ordinary u lines agent garbage v host_fits request_fits fits_all =
    let first : (fits (request_hdr u) && fits (own_host_hdr u)) ≡ true =
      ground (arith, host_fits, request_fits) in
    let whole : fits (header_of u agent (last_or (own_host_hdr u) lines) garbage) ≡ true =
      ground (arith, fits_all) in
    rw (first, read_headers-Ordinary lines (own_host_hdr u) garbage v, whole) refl
