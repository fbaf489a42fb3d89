-- ===== src/Proxy/Uri.antt =====
-- `parse_uri` of proxylab-handout/proxy.c. A text is the list of its bytes without the NUL. The fields
-- of `struct uri_t` have room for `URILEN` bytes; a longer text overflows them, which is `none`.
pub mod Print
use cmu_ics.Prelude.{
  ℕ, Option, none, some, List, [], ◌∷◌, Bool, ◌&&◌, ◌||◌, ltb, leb, ◌==◌, if◌then◌else◌, length,
}
use cmu_ics.Shell.Parse.{cut_at}

pub record Uri : Type 0 where
  pub host : List ℕ
  pub port : List ℕ
  pub path : List ℕ

abbrev pub is_space : ℕ → Bool
is_space c = c == 32 || (leb 9 c && leb c 13)

unfoldable pub skip_white : List ℕ → List ℕ
skip_white [] = []
skip_white (c ∷ s) = if is_space c then skip_white s else c ∷ s

unfoldable pub take_word : List ℕ → List ℕ
take_word [] = []
take_word (c ∷ s) = if is_space c then [] else c ∷ take_word s

-- `sscanf(s, "%s", field)` into a field that is all zeros, and what the code does behind it.
unfoldable pub with_field : List ℕ → (List ℕ → Option Uri) → Option Uri
unfolding skip_white take_word
with_field s next =
    let field = take_word (skip_white s) in if ltb (length field) 1024 then next field else none

-- `strstr(s, "//")`, and two bytes on.
unfoldable pub after_slashes : List ℕ → Option (List ℕ)
after_slashes [] = none
after_slashes (c ∷ []) = none
after_slashes (c ∷ d ∷ s) = if c == b'/' && d == b'/' then some s else after_slashes (d ∷ s)

-- "/home.html" and "80"
abbrev pub home : List ℕ
home = b'/' ∷ b'h' ∷ b'o' ∷ b'm' ∷ b'e' ∷ b'.' ∷ b'h' ∷ b't' ∷ b'm' ∷ b'l' ∷ []

abbrev pub port_80 : List ℕ
port_80 = b'8' ∷ b'0' ∷ []

-- The branch with a colon: the host in front of it, and what stands behind it.
unfoldable pub port_and_path : List ℕ → List ℕ → Option Uri
unfolding with_field cut_at
port_and_path behind host = elim (cut_at b'/' behind) [
  | some (number, rest) ↦ with_field number (λ port.
      with_field (b'/' ∷ rest) (λ path. some (record { host = host; port = port; path = path })))
  | none ↦ with_field behind (λ port. some (record { host = host; port = port; path = home }))
]

unfoldable pub without_port : List ℕ → Option Uri
unfolding with_field cut_at
without_port text = elim (cut_at b'/' text) [
  | some (front, rest) ↦ with_field front (λ host.
      with_field (b'/' ∷ rest) (λ path. some (record { host = host; port = port_80; path = path })))
  | none ↦ with_field text (λ host. some (record { host = host; port = port_80; path = home }))
]

unfoldable pub parse_uri : List ℕ → Option Uri
unfolding after_slashes with_field port_and_path without_port cut_at
parse_uri uri =
    let text = elim (after_slashes uri) as (λ x. List ℕ) [ some s ↦ s | none ↦ uri ] in
    elim (cut_at b':' text) [
      | some (front, behind) ↦ with_field front (port_and_path behind)
      | none ↦ without_port text
    ]
