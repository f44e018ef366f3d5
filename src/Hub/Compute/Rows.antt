-- ===== src/Hub/Compute/Rows.antt =====
-- The rows that the compute operations write, and what they test of them (stpd/hub/database.py).
use sts2_the_perfect_defect.Prelude.{
  ℕ, String, Bool, true, false, ◌&&◌, ◌||◌, Option, none, some, leb, ◌==◌, nat_eq, string_eq,
  option_eq, if◌then◌else◌,
}
use sts2_the_perfect_defect.Prelude.Result.{Result, ok, err, type_error, key_error}
use sts2_the_perfect_defect.Prelude.Table.{update}
use sts2_the_perfect_defect.Boundary.Json.{Json, flag, str, obj, end, field, json_eq}
use sts2_the_perfect_defect.Contracts.Runtime.{Runtime}
use sts2_the_perfect_defect.Contracts.Request.{ComputeRequest, request_id}
use sts2_the_perfect_defect.Contracts.Receipt.{ComputeReceipt}
use sts2_the_perfect_defect.Contracts.Call.{ModalCall}
use sts2_the_perfect_defect.Hub.Schema.{
  Status, status_eq, ComputeAttempt, Phase, Db, attempt_job, running, submission_unknown, uncertain,
  cancelling, completed, paused, cancelled, submitting, settled_cancelled, settled_paused,
  settled_completed,
}

-- `UPDATE compute_attempts SET ... WHERE job_id=?`
abbrev pub set_attempt : String → (ComputeAttempt → ComputeAttempt) → Db → Db
set_attempt job f db = record db { attempts = update attempt_job job f db.attempts }

-- `{"feature": "features", "training": "training"}[kind]`
abbrev pub worker_kind : String → Result String
worker_kind kind =
    if kind == "feature"
    then ok "features"
    else if kind == "training"
    then ok "training"
    else err key_error

abbrev pub no_handle : Option ComputeAttempt → Bool
no_handle none = true
no_handle (some a) = elim a.handle [ none ↦ true | some h ↦ false ]

-- Whether the row is already in `status`, with `code` as its last error where there is an attempt.
abbrev pub already_uncertain : Option ComputeAttempt → Status → Status → String → Bool
already_uncertain none old status code = old == status
already_uncertain (some a) old status code = a.last_error == some code && old == status

abbrev pub uncertain_status : Status → Bool → Status
uncertain_status old handle_missing =
    if old == cancelling
    then cancelling
    else if handle_missing
    then submission_unknown
    else uncertain

abbrev pub settled_status : Bool → ComputeReceipt → Status
settled_status is_cancelled value =
    if is_cancelled then cancelled else if value.state == "paused" then paused else completed

abbrev pub settled_phase : Bool → ComputeReceipt → Phase
settled_phase is_cancelled value =
    if is_cancelled
    then settled_cancelled
    else if value.state == "paused"
    then settled_paused
    else settled_completed

-- What a cancelled job keeps of its receipt.
abbrev pub cancelled_result : ComputeReceipt → Json
cancelled_result value = obj (
    field "request_id" (str value.request_id)
      (field "state" (str "cancelled") (field "terminal_receipt_recorded" (flag true) end)))

abbrev pub may_accept : Bool → Status → Bool
may_accept true status = status == cancelling
may_accept false status = status == running || (status == uncertain || status == submission_unknown)

abbrev pub bound_call : ComputeAttempt → ModalCall → String → Runtime → String → Bool
bound_call a value attempt rt target =
    a.request_id == request_id rt value.request
    && (a.target_id == target && value.request.attempt_id == attempt)

-- `INSERT INTO compute_attempts`
abbrev pub new_attempt : String → String → Json → ℕ → Runtime → ComputeRequest → ComputeAttempt
new_attempt job target_id request fence rt value = record {
  job_id = job;
  attempt_id = value.attempt_id;
  fence = fence;
  request_id = request_id rt value;
  request = request;
  target_id = target_id;
  phase = submitting;
  handle = none;
  cancel_state = none;
  last_error = none;
  receipt = none;
}

-- The status after a recovery: a running job whose lease has elapsed becomes uncertain.
abbrev pub recovered_status : Status → Option ℕ → ℕ → Result Status
recovered_status running none t = err type_error
recovered_status running (some until) t = ok (if leb until t then uncertain else running)
recovered_status status _ t = ok status

abbrev pub settled_event : Bool → ComputeReceipt → String
settled_event is_cancelled value =
    if is_cancelled
    then "compute_cancelled"
    else if value.state == "paused"
    then "compute_paused"
    else "compute_completed"
