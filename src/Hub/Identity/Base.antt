-- ===== src/Hub/Identity/Base.antt =====
-- The requests that stpd/hub/identity.py accepts, and what its service is made of.
use text.Mathlib.Text.{starts_with}
use sts2_the_perfect_defect.Prelude.{
  ℕ, String, Bool, true, false, ◌&&◌, ◌||◌, Option, none, some, List, [], ◌∷◌, ltb, leb, length,
  ◌==◌, nat_eq, string_eq, if◌then◌else◌,
}
use sts2_the_perfect_defect.Prelude.Result.{Error, Result, ok, err, boundary, type_error, guard}
use sts2_the_perfect_defect.Boundary.Json.{Json, Fields, null, str, obj}
use sts2_the_perfect_defect.Boundary.Checks.{codes, all, is_hex}
use sts2_the_perfect_defect.Contracts.Runtime.{Runtime}
use sts2_the_perfect_defect.Hub.Members.{lookup, only}
use sts2_the_perfect_defect.Data.Seeds.{strip}
use sts2_the_perfect_defect.Boundary.Texts.{same_codes}

-- `mac` is the HMAC of the JSON text of its parts under the service's key, `stable_id` the SHA-256 of
-- the JSON text of an issuer and a subject.
pub record Service : Type 0 where
  pub has_access : Bool
  pub mac : List String → String
  pub stable_id : String → String → String

abbrev pub identity : String → Error
identity code = boundary "identity" code

abbrev pub flow_seconds : ℕ
flow_seconds = 600

abbrev pub session_seconds : ℕ
session_seconds = 86400

abbrev pub personal_prefix : String
personal_prefix = "stpd_personal_"

-- `required_access`
abbrev pub required_access : Service → Result (Unit {0})
required_access svc = guard svc.has_access (identity "browser_access_not_configured")

unfoldable pub is_in : List String → String → Bool
is_in [] k = false
is_in (n ∷ ns) k = n == k || is_in ns k

abbrev pub is_there : Option Json → Bool
is_there none = false
is_there (some j) = true

unfoldable pub has_all : List String → Fields → Bool
has_all [] fs = true
has_all (n ∷ ns) fs = is_there (lookup n fs) && has_all ns fs

-- `fields`
unfoldable pub fields : List String → List String → Json → Result Fields
unfolding has_all is_in
fields required optional (obj fs) =
    if has_all required fs && only (λ k. is_in required k || is_in optional k) fs
    then ok fs
    else err (identity "invalid_identity_request")
fields required optional _ = err (identity "invalid_identity_request")

-- `text`
unfoldable pub identity_text : Option Json → ℕ → Result String
unfolding same_codes all
identity_text (some (str s)) maximum =
    if leb 1 (length (codes s))
      && (leb (length (codes s)) maximum
          && (same_codes (strip (codes s)) (codes s) && all (λ c. leb 32 c) (codes s)))
    then ok s
    else err (identity "invalid_identity_request")
identity_text _ maximum = err (identity "invalid_identity_request")

-- `[A-Za-z0-9_-]`
abbrev is_url_safe : ℕ → Bool
is_url_safe c =
    (leb 65 c && leb c 90)
    || ((leb 97 c && leb c 122) || ((leb 48 c && leb c 57) || (c == 95 || c == 45)))

-- `dict.get`, for which null is None
abbrev pub given : Option Json → Option Json
given none = none
given (some null) = none
given (some j) = some j

-- `secrets.compare_digest` of two texts, which have to be ASCII
unfoldable pub compare_digest : String → String → Result Bool
unfolding all
compare_digest a b =
    if all (λ c. ltb c 128) (codes a) && all (λ c. ltb c 128) (codes b)
    then ok (a == b)
    else err type_error

unfoldable pub drop : ℕ → List ℕ → List ℕ
drop n [] = []
drop ℕ.zero (c ∷ cs) = c ∷ cs
drop (ℕ.suc n) (c ∷ cs) = drop n cs

-- `re.fullmatch(PERSONAL_PREFIX + r"[a-f0-9]{64}", token)`
unfoldable pub is_personal : String → Bool
unfolding drop all
is_personal token =
    let rest = drop (length (codes personal_prefix)) (codes token) in
    starts_with token personal_prefix && (length rest == 64 && all is_hex rest)

module _ (rt : Runtime) where
  -- `client_hash`
  unfoldable pub client_hash : Option Json → Result String
  unfolding all
  client_hash (some (str s)) =
      if leb 32 (length (codes s)) && (leb (length (codes s)) 128 && all is_url_safe (codes s))
      then ok (rt.sha256 s)
      else err (identity "invalid_identity_request")
  client_hash _ = err (identity "invalid_identity_request")
