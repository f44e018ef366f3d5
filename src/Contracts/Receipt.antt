-- ===== src/Contracts/Receipt.antt =====
-- `ComputeReceipt` of stpd/cloud_jobs/contracts.py.
use sts2_the_perfect_defect.Prelude.{
  String, Bool, true, false, ◌&&◌, ◌||◌, not, Option, List, [], ◌∷◌, ◌==◌, string_eq, option_eq,
}
use sts2_the_perfect_defect.Prelude.Result.{Result, ok, boundary, ◌>>=◌, ◌>>◌, guard}
use sts2_the_perfect_defect.Boundary.Json.{Json, null, str, obj, end, field}
use sts2_the_perfect_defect.Boundary.Checks.{digest, object_fields, item}
use sts2_the_perfect_defect.Contracts.Runtime.{Runtime}
use sts2_the_perfect_defect.Contracts.Producer.{
  Producer, producer_eq, producer_decode, producer_to_dict,
}
use sts2_the_perfect_defect.Contracts.Request.{
  ComputeRequest, request_init, request_id, member_of, optional, present, opt_str, expect_schema,
}

pub record ComputeReceipt : Type 0 where
  pub request_id : String
  pub attempt_id : String
  pub kind : String
  pub input_id : String
  pub producer : Producer
  pub state : String
  pub output_id : Option String
  pub checkpoint_id : Option String

abbrev same_flag : Bool → Bool → Bool
same_flag true b = b
same_flag false b = not b

abbrev digest_output : Json → Result String
digest_output v = digest v "compute_receipt.output" 64

-- `ComputeReceipt(...)` on decoded values, with `__post_init__`
unfoldable pub receipt_init :
    Json → Json → Json → Json → Producer → Json → Json → Json → Result ComputeReceipt
receipt_init request_id attempt_id kind input_id producer state output_id checkpoint_id = do
  q ← digest request_id "compute_receipt.request_id" 64
  r ← request_init kind input_id producer attempt_id null null
  s ← member_of state ("candidate_prepared" ∷ "paused" ∷ []) "compute_receipt" "unknown_state"
  o ← optional digest_output output_id
  c ← optional digest_output checkpoint_id
  guard (same_flag (s == "candidate_prepared") (present o))
      (boundary "compute_receipt" "state_output_mismatch")
  guard (not (s == "paused" && (not (r.kind == "training") || not (present c))))
      (boundary "compute_receipt" "pause_checkpoint_required")
  guard (not (r.kind == "features" && present c))
      (boundary "compute_receipt" "unexpected_checkpoint")
  ok (record {
    request_id = q;
    attempt_id = r.attempt_id;
    kind = r.kind;
    input_id = r.input_id;
    producer = producer;
    state = s;
    output_id = o;
    checkpoint_id = c;
  })

abbrev pub receipt_schema : String
receipt_schema = "stpd/compute-receipt-v1"

unfoldable pub receipt_to_dict : ComputeReceipt → Json
receipt_to_dict r = obj (
    field "attempt_id" (str r.attempt_id) (
      field "checkpoint_id" (opt_str r.checkpoint_id) (
        field "input_id" (str r.input_id) (
          field "kind" (str r.kind) (
            field "output_id" (opt_str r.output_id) (
              field "producer" (producer_to_dict r.producer) (
                field "request_id" (str r.request_id)
                  (field "schema" (str receipt_schema) (field "state" (str r.state) end)))))))))

abbrev receipt_names : List String
receipt_names =
    "attempt_id" ∷ "checkpoint_id" ∷ "input_id" ∷ "kind" ∷ "output_id" ∷ "producer" ∷ "request_id"
    ∷ "schema" ∷ "state" ∷ []

module _ (rt : Runtime) where
  unfoldable pub receipt_decode : Json → Result ComputeReceipt
  receipt_decode value = do
    o ← object_fields value receipt_names "compute_receipt"
    schema ← item o "schema"
    expect_schema schema receipt_schema "compute_receipt"
    p ← item o "producer"
    producer ← producer_decode rt p
    request ← item o "request_id"
    attempt ← item o "attempt_id"
    kind ← item o "kind"
    input ← item o "input_id"
    state ← item o "state"
    output ← item o "output_id"
    checkpoint ← item o "checkpoint_id"
    receipt_init request attempt kind input producer state output checkpoint

  -- `receipt.bind(request)`
  unfoldable pub bind : ComputeReceipt → ComputeRequest → Result (Unit {0})
  bind c r =
      guard
        (c.request_id == request_id rt r
          && (c.attempt_id == r.attempt_id
              && (c.kind == r.kind && (c.input_id == r.input_id && c.producer == r.producer))))
        (boundary "compute_receipt" "request_binding_mismatch")
