-- ===== src/Proxy/Uri/Print.antt =====
-- A URI in its usual form, printed and read back by `parse_uri` of proxylab-handout/proxy.c.
use mathlib.Core.List.{append-nil}
use cmu_ics.Prelude.{
  ℕ, ◌<◌, ◌≡◌, refl, ap, ◌∙◌, inl, inr, Option, none, some, List, [], ◌∷◌, ◌++◌, Bool, true, false,
  ◌==◌, ==_true, if◌then◌else◌, Bool-cases, length, arith,
}
use cmu_ics.Shell.Parse.{cut_at}
use cmu_ics.Proxy.Uri.{
  Uri, is_space, skip_white, take_word, with_field, after_slashes, home, port_80, port_and_path,
  without_port, parse_uri,
}

unfoldable pub lacks : ℕ → List ℕ → Bool
lacks c [] = true
lacks c (d ∷ s) = let rest = lacks c s in if d == c then false else rest

unfoldable pub no_spaces : List ℕ → Bool
no_spaces [] = true
no_spaces (c ∷ s) = let rest = no_spaces s in if is_space c then false else rest

cut_at-append : (c : ℕ) (s t : List ℕ) → lacks c s ≡ true → cut_at c (s ++ (c ∷ t)) ≡ some (s, t)
unfolding cut_at lacks
cut_at-append c [] t h = rw (==_true c) refl
cut_at-append c (d ∷ s) t h = elim (Bool-cases (d == c)) [
  | inl same ↦ absurd (ground arith)
  | inr other ↦ rw (other, cut_at-append c s t (ground arith)) refl
]

cut_at-lacks : (c : ℕ) (s : List ℕ) → lacks c s ≡ true → cut_at c s ≡ none
unfolding cut_at lacks
cut_at-lacks c [] h = refl
cut_at-lacks c (d ∷ s) h = elim (Bool-cases (d == c)) [
  | inl same ↦ absurd (ground arith)
  | inr other ↦ rw (other, cut_at-lacks c s (ground arith)) refl
]

lacks-append :
    (c : ℕ) (s t : List ℕ) → lacks c s ≡ true → lacks c t ≡ true → lacks c (s ++ t) ≡ true
unfolding lacks
lacks-append c [] t h h' = h'
lacks-append c (d ∷ s) t h h' = elim (Bool-cases (d == c)) [
  | inl same ↦ absurd (ground arith)
  | inr other ↦ rw (other, lacks-append c s t (ground arith) h') refl
]

take_word-no_spaces : (s : List ℕ) → no_spaces s ≡ true → take_word s ≡ s
unfolding take_word no_spaces
take_word-no_spaces [] h = refl
take_word-no_spaces (c ∷ s) h = elim (Bool-cases (is_space c)) [
  | inl white ↦ absurd (ground arith)
  | inr other ↦ rw (other, take_word-no_spaces s (ground arith)) refl
]

skip_white-no_spaces : (s : List ℕ) → no_spaces s ≡ true → skip_white s ≡ s
unfolding skip_white no_spaces
skip_white-no_spaces [] h = refl
skip_white-no_spaces (c ∷ s) h = ground arith

with_field-no_spaces :
    (s : List ℕ) (next : List ℕ → Option Uri)
    → no_spaces s ≡ true
    → length s < 1024
    → with_field s next ≡ next s
unfolding with_field
with_field-no_spaces s next h small =
    rw (skip_white-no_spaces s h, take_word-no_spaces s h) (ground arith)

-- A host or a port: no space, colon or slash, and short enough for its field.
pub record IsName (s : List ℕ) : Type 0 where
  pub plain : no_spaces s ≡ true
  pub no_colon : lacks b':' s ≡ true
  pub no_slash : lacks b'/' s ≡ true
  pub short : length s < 1024

-- What stands behind the first slash of the path.
pub record IsPath (s : List ℕ) : Type 0 where
  pub plain : no_spaces s ≡ true
  pub short : length s < 1023

-- "http://"
abbrev pub scheme : List ℕ
scheme = b'h' ∷ b't' ∷ b't' ∷ b'p' ∷ b':' ∷ b'/' ∷ b'/' ∷ []

-- The path, if there is one, and the answer for it.
abbrev pub print_path : Option (List ℕ) → List ℕ
print_path none = []
print_path (some s) = b'/' ∷ s

abbrev pub path_of : Option (List ℕ) → List ℕ
path_of none = home
path_of (some s) = b'/' ∷ s

abbrev pub print_uri : List ℕ → Option (List ℕ) → Option (List ℕ) → List ℕ
print_uri host none path = scheme ++ (host ++ print_path path)
print_uri host (some port) path = scheme ++ (host ++ (b':' ∷ (port ++ print_path path)))

abbrev pub port_of : Option (List ℕ) → List ℕ
port_of none = port_80
port_of (some s) = s

abbrev pub IsPort : Option (List ℕ) → Type 0
IsPort none = Unit {0}
IsPort (some s) = IsName s

-- Without a port the path has no colon either.
abbrev pub Suits : Option (List ℕ) → Option (List ℕ) → Type 0
Suits port none = Unit {0}
Suits none (some s) = IsPath s × (lacks b':' s ≡ true)
Suits (some port) (some s) = IsPath s

with_path-no_spaces :
    (s : List ℕ) (next : List ℕ → Option Uri)
    → IsPath s
    → with_field (b'/' ∷ s) next ≡ next (b'/' ∷ s)
unfolding no_spaces
with_path-no_spaces s next v = with_field-no_spaces (b'/' ∷ s) next v.plain (omega (arith, v.short))

port_and_path-print :
    (host port : List ℕ) (path : Option (List ℕ))
    → IsName port
    → Suits (some port) path
    → port_and_path (port ++ print_path path) host
      ≡ some (record { host = host; port = port; path = path_of path })
unfolding port_and_path
port_and_path-print host port none vp suits =
    ap (λ t. port_and_path t host) (append-nil port)
    ∙ rw (port_and_path, cut_at-lacks b'/' port vp.no_slash)
        (with_field-no_spaces port (λ x. some (record { host = host; port = x; path = home }))
          vp.plain vp.short)
port_and_path-print host port (some s) vp suits =
    rw (port_and_path, cut_at-append b'/' port s vp.no_slash)
      (with_field-no_spaces port
          (λ x. with_field (b'/' ∷ s) (λ y. some (record { host = host; port = x; path = y })))
          vp.plain vp.short
        ∙ with_path-no_spaces s (λ y. some (record { host = host; port = port; path = y })) suits)

without_port-print :
    (host : List ℕ) (path : Option (List ℕ))
    → IsName host
    → Suits none path
    → without_port (host ++ print_path path)
      ≡ some (record { host = host; port = port_80; path = path_of path })
unfolding without_port
without_port-print host none vh suits =
    ap without_port (append-nil host)
    ∙ rw (without_port, cut_at-lacks b'/' host vh.no_slash)
        (with_field-no_spaces host (λ x. some (record { host = x; port = port_80; path = home }))
          vh.plain vh.short)
without_port-print host (some s) vh suits =
    rw (without_port, cut_at-append b'/' host s vh.no_slash)
      (with_field-no_spaces host
          (λ x. with_field (b'/' ∷ s) (λ y. some (record { host = x; port = port_80; path = y })))
          vh.plain vh.short
        ∙ with_path-no_spaces s (λ y. some (record { host = host; port = port_80; path = y }))
            suits.0)

-- Behind the scheme stands what is parsed.
parse_uri-scheme :
    (s : List ℕ)
    → parse_uri (scheme ++ s) ≡ elim (cut_at b':' s) as (λ x. Option Uri) [
      | some (front, behind) ↦ with_field front (port_and_path behind)
      | none ↦ without_port s
    ]
unfolding parse_uri after_slashes
parse_uri-scheme s = refl

lacks-print_path :
    (host : List ℕ) (path : Option (List ℕ))
    → IsName host
    → Suits none path
    → lacks b':' (host ++ print_path path) ≡ true
unfolding lacks
lacks-print_path host none v suits = lacks-append b':' host [] v.no_colon refl
lacks-print_path host (some s) v suits = lacks-append b':' host (b'/' ∷ s) v.no_colon suits.1

-- `parse_uri` reads back the host, the port and the path of a URI in its usual form; a missing port is
-- 80 and a missing path `/home.html`. Without a port the path must have no colon, and each part must
-- fit its field.
pub parse_uri-print :
    (host : List ℕ) (port path : Option (List ℕ))
    → IsName host
    → IsPort port
    → Suits port path
    → parse_uri (print_uri host port path)
      ≡ some (record { host = host; port = port_of port; path = path_of path })
parse_uri-print host none path vh vp suits =
    rw
      (
        parse_uri-scheme (host ++ print_path path),
        cut_at-lacks b':' (host ++ print_path path) (lacks-print_path host path vh suits),
      )
      (without_port-print host path vh suits)
parse_uri-print host (some port) path vh vp suits =
    rw
      (
        parse_uri-scheme (host ++ (b':' ∷ (port ++ print_path path))),
        cut_at-append b':' host (port ++ print_path path) vh.no_colon,
      )
      (with_field-no_spaces host (port_and_path (port ++ print_path path)) vh.plain vh.short
        ∙ port_and_path-print host port path vp suits)
