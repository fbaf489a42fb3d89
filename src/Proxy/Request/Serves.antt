-- ===== src/Proxy/Request/Serves.antt =====
-- What `do_request` of proxylab-handout/proxy.c answers.
use cmu_ics.Prelude.{ℕ, zero, suc, ◌+◌, ◌≡◌, refl, some, List, ◌∷◌, Bool, true, false}
use cmu_ics.Proxy.Cache.{Cache}
use cmu_ics.Proxy.Uri.{Uri, parse_uri}
use cmu_ics.Proxy.Headers.{build_headers}
use cmu_ics.Proxy.Relay.{join}
use cmu_ics.Proxy.Request.{
  request_line, is_get, Network, connected, unfinished, connect_loop, Arrays,
}

-- When the first address of a list does not answer, and the second never does, the loop does not end, whatever other
-- addresses there are.
pub connect_loop-unfinished :
    (fuel : ℕ) (connects : ℕ → ℕ → Bool) (a b : ℕ) (rest : List ℕ)
    → connects 0 a ≡ false
    → ((k : ℕ) → connects (k + 1) b ≡ false)
    → connect_loop fuel 0 connects (a ∷ b ∷ rest) (a ∷ b ∷ rest) ≡ unfinished
unfolding connect_loop
connect_loop-unfinished zero connects a b rest first second = refl
connect_loop-unfinished (suc fuel) connects a b rest first second = rw first (again fuel 0)
  where
    again : (fuel k : ℕ) → connect_loop fuel (k + 1) connects (a ∷ b ∷ rest) (b ∷ rest) ≡ unfinished
    again zero k = refl
    again (suc fuel) k = rw (second k) (again fuel (k + 1))

-- A line that asks for `uri` with GET.
abbrev pub Asks : List ℕ → List ℕ → Type 0
Asks buf uri = (method : List ℕ) × (request_line buf ≡ some (method, uri)) × (is_get method ≡ true)

-- The headers of the request fit in their arrays, and the server is found and connected to.
pub record Reached (fuel : ℕ) (arrays : Arrays) (net : Network) (uri : List ℕ)
    (headers : List (List ℕ)) : Type 0 where
  pub parts : Uri
  pub parsed : parse_uri uri ≡ some parts
  pub sent : List ℕ
  pub built : build_headers parts headers arrays.agent arrays.other_hdr ≡ some sent
  pub list : List ℕ
  pub found : net.resolve parts.host parts.port ≡ some list
  pub server : ℕ
  pub reached : connect_loop fuel 0 net.connects list list ≡ connected server

module _ (fuel : ℕ) (arrays : Arrays) (net : Network) (uri : List ℕ) (headers : List (List ℕ))
    (r : Reached fuel arrays net uri headers) where
  abbrev pub request : List ℕ
  request = r.sent

  abbrev pub whole : List ℕ
  whole = join (net.answer r.server request)
