-- ===== src/Contracts/Producer.antt =====
-- `Producer` and the credential screen of stpd/artifact_contracts.py.
use sts2_the_perfect_defect.Prelude.{
  ℕ, ◌≡◌, String, Bool, true, false, ◌&&◌, ◌||◌, not, Option, none, some, List, [], ◌∷◌, leb, Eq,
  ◌==◌, nat_eq, string_eq, eq_iff, arith, ◌↔◌, if◌then◌else◌,
}
use sts2_the_perfect_defect.Prelude.Result.{Result, ok, err, boundary, ◌>>=◌, ◌>>◌, guard}
use sts2_the_perfect_defect.Boundary.Json.{Json, str, obj, end, field}
use sts2_the_perfect_defect.Boundary.Checks.{codes, text, digest, object_fields, item}
use sts2_the_perfect_defect.Contracts.Runtime.{Runtime, SplitUrl}
use sts2_the_perfect_defect.Boundary.Texts.{same_codes}

pub record Producer : Type 0 where
  pub repository : String
  pub source_revision : String
  pub uv_lock_sha256 : String

abbrev pub producer_beq : Producer → Producer → Bool
producer_beq a b =
    a.repository == b.repository
    && (a.source_revision == b.source_revision && a.uv_lock_sha256 == b.uv_lock_sha256)

pub producer_beq_iff : (a b : Producer) → (producer_beq a b ≡ true) ↔ (a ≡ b)
producer_beq_iff a b = ground (
  arith,
  eq_iff a.repository b.repository,
  eq_iff a.source_revision b.source_revision,
  eq_iff a.uv_lock_sha256 b.uv_lock_sha256,
)

instance abbrev pub producer_eq : Eq Producer
producer_eq = record { beq = producer_beq; beq_iff = producer_beq_iff }

abbrev secret_field_names : List String
secret_field_names =
    "accesskey" ∷ "accesskeyid" ∷ "accesstoken" ∷ "apikey" ∷ "authorization" ∷ "bearer"
    ∷ "awsaccesskeyid" ∷ "awssecretaccesskey" ∷ "clientsecret" ∷ "credential" ∷ "credentials"
    ∷ "password" ∷ "passwd" ∷ "privatekey" ∷ "secret" ∷ "secretkey" ∷ "sessiontoken" ∷ "token"
    ∷ "xamzcredential" ∷ "xamzsignature" ∷ []

-- `re.sub(r"[^a-z0-9]", "", ...)`
unfoldable pub keep_plain : List ℕ → List ℕ
keep_plain [] = []
keep_plain (c ∷ cs) =
    let rest = keep_plain cs in
    if (leb 97 c && leb c 122) || (leb 48 c && leb c 57) then c ∷ rest else rest

-- A normalised key is one of these names.
unfoldable pub is_secret_in : List String → List ℕ → Bool
unfolding same_codes
is_secret_in [] key = false
is_secret_in (n ∷ ns) key = same_codes (codes n) key || is_secret_in ns key

module _ (rt : Runtime) where
  -- `_metadata_key(value) in _SECRET_FIELD_NAMES`
  is_secret : String → Bool
  unfolding keep_plain is_secret_in
  is_secret key = is_secret_in secret_field_names (keep_plain (codes (rt.casefold key)))

  any_secret : List String → Bool
  unfolding is_secret
  any_secret [] = false
  any_secret (k ∷ ks) = is_secret k || any_secret ks

  abbrev is_some : Option String → Bool
  is_some none = false
  is_some (some s) = true

  screen_url : Option SplitUrl → Result (Unit {0})
  unfolding any_secret
  screen_url none = err (boundary "manifest" "invalid_url_metadata")
  screen_url (some u) =
      guard
        (not (
          (u.scheme == "http" || u.scheme == "https")
          && (is_some u.username || is_some u.password || any_secret u.keys)))
        (boundary "manifest" "credentialed_url")

  -- `_validate_durable_metadata` on a str
  unfoldable pub validate_durable_metadata : String → Result (Unit {0})
  unfolding screen_url
  validate_durable_metadata value = screen_url (rt.urlsplit value)

  -- `Producer(...)` on decoded values, with `__post_init__`
  unfoldable pub producer_init : Json → Json → Json → Result Producer
  producer_init repository revision lock = do
    r ← text repository "producer.repository" 4096
    v ← digest revision "producer.source_revision" 40
    l ← digest lock "producer.uv_lock_sha256" 64
    validate_durable_metadata r
    ok (record { repository = r; source_revision = v; uv_lock_sha256 = l })

  unfoldable pub producer_decode : Json → Result Producer
  producer_decode value = do
    o ← object_fields value ("repository" ∷ "source_revision" ∷ "uv_lock_sha256" ∷ []) "producer"
    repository ← item o "repository"
    revision ← item o "source_revision"
    lock ← item o "uv_lock_sha256"
    producer_init repository revision lock

unfoldable pub producer_to_dict : Producer → Json
producer_to_dict p = obj (
    field "repository" (str p.repository) (
      field "source_revision" (str p.source_revision)
        (field "uv_lock_sha256" (str p.uv_lock_sha256) end)))
