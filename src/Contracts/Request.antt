-- ===== src/Contracts/Request.antt =====
-- `ComputeRequest` of stpd/cloud_jobs/contracts.py.
use sts2_the_perfect_defect.Prelude.{
  ℕ, zero, String, Bool, true, false, ◌&&◌, ◌||◌, not, Option, none, some, List, [], ◌∷◌, ◌==◌,
  nat_eq, string_eq, option_eq, if◌then◌else◌,
}
use sts2_the_perfect_defect.Prelude.Result.{
  Result, ok, err, boundary, type_error, ◌>>=◌, ◌>>◌, guard,
}
use sts2_the_perfect_defect.Boundary.Json.{Json, null, num, str, arr, obj, end, field}
use sts2_the_perfect_defect.Boundary.Checks.{text, digest, unsigned, object_fields, item}
use sts2_the_perfect_defect.Contracts.Runtime.{Runtime}
use sts2_the_perfect_defect.Contracts.Producer.{
  Producer, producer_eq, producer_decode, producer_to_dict,
}

pub record ComputeRequest : Type 0 where
  pub kind : String
  pub input_id : String
  pub producer : Producer
  pub attempt_id : String
  pub resume : Option String
  pub stop_after : Option ℕ

-- `==` of the dataclass
abbrev pub request_beq : ComputeRequest → ComputeRequest → Bool
request_beq a b =
    a.kind == b.kind
    && (a.input_id == b.input_id
        && (a.producer == b.producer
            && (a.attempt_id == b.attempt_id
                && (a.resume == b.resume && a.stop_after == b.stop_after))))

-- `value in {...}` for a set of texts; a list or a dict is unhashable
unfoldable pub member_of : Json → List String → String → String → Result String
member_of (str s) [] stage code = err (boundary stage code)
member_of (str s) (n ∷ ns) stage code = if s == n then ok s else member_of (str s) ns stage code
member_of (arr xs) ns stage code = err type_error
member_of (obj fs) ns stage code = err type_error
member_of _ ns stage code = err (boundary stage code)

-- `if value is not None: check(value)`
unfoldable pub optional {ℓ} : {A : Type ℓ} → (Json → Result A) → Json → Result (Option A)
optional check null = ok none
optional check v = do a ← check v; ok (some a)

abbrev pub present {ℓ} : {A : Type ℓ} → Option A → Bool
present none = false
present (some a) = true

-- `stop_after is not None and stop_after == 0`
abbrev pub is_zero : Option ℕ → Bool
is_zero (some zero) = true
is_zero _ = false

-- `ComputeRequest(...)` on decoded values, with `__post_init__`
unfoldable pub request_init : Json → Json → Producer → Json → Json → Json → Result ComputeRequest
request_init kind input_id producer attempt_id resume stop_after = do
  k ← member_of kind ("features" ∷ "training" ∷ []) "compute_request" "unknown_kind"
  i ← digest input_id "compute_request.input_id" 64
  a ← text attempt_id "compute_request.attempt_id" 128
  r ← optional (λ v. digest v "compute_request.resume" 64) resume
  s ← optional (λ v. unsigned v "compute.stop_after") stop_after
  guard (not (is_zero s)) (boundary "compute_request" "zero_pause_budget")
  guard (not (k == "features" && (present r || present s)))
      (boundary "compute_request" "feature_resume_not_supported")
  ok (record {
    kind = k;
    input_id = i;
    producer = producer;
    attempt_id = a;
    resume = r;
    stop_after = s;
  })

-- `None` and a text as JSON values
abbrev pub opt_str : Option String → Json
opt_str none = null
opt_str (some s) = str s

abbrev pub opt_num : Option ℕ → Json
opt_num none = null
opt_num (some n) = num n

abbrev pub request_schema : String
request_schema = "stpd/compute-request-v1"

unfoldable pub request_to_dict : ComputeRequest → Json
request_to_dict r = obj (
    field "attempt_id" (str r.attempt_id) (
      field "input_id" (str r.input_id) (
        field "kind" (str r.kind) (
          field "producer" (producer_to_dict r.producer) (
            field "resume" (opt_str r.resume) (
              field "schema" (str request_schema)
                (field "stop_after" (opt_num r.stop_after) end)))))))

abbrev request_names : List String
request_names =
    "attempt_id" ∷ "input_id" ∷ "kind" ∷ "producer" ∷ "resume" ∷ "schema" ∷ "stop_after" ∷ []

-- `obj.pop("schema") != SCHEMA`
unfoldable pub expect_schema : Json → String → String → Result (Unit {0})
expect_schema (str s) schema stage = guard (s == schema) (boundary stage "unsupported_schema")
expect_schema _ schema stage = err (boundary stage "unsupported_schema")

module _ (rt : Runtime) where
  unfoldable pub request_id : ComputeRequest → String
  request_id r = rt.semantic_hash (request_to_dict r)

  unfoldable pub request_decode : Json → Result ComputeRequest
  request_decode value = do
    o ← object_fields value request_names "compute_request"
    schema ← item o "schema"
    expect_schema schema request_schema "compute_request"
    p ← item o "producer"
    producer ← producer_decode rt p
    kind ← item o "kind"
    input_id ← item o "input_id"
    attempt_id ← item o "attempt_id"
    resume ← item o "resume"
    stop_after ← item o "stop_after"
    request_init kind input_id producer attempt_id resume stop_after
