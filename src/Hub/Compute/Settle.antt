-- ===== src/Hub/Compute/Settle.antt =====
-- `accept_compute`, `begin_compute_cancel` and `record_compute_cancel` of stpd/hub/database.py: how
-- an invocation ends.
use sts2_the_perfect_defect.Prelude.{
  ℕ, String, Bool, true, false, ◌&&◌, not, some, ◌==◌, nat_eq, string_eq, option_eq, if◌then◌else◌,
}
use sts2_the_perfect_defect.Prelude.Result.{ok, ◌>>=◌, ◌>>◌, guard, expect, branch, match_option}
use sts2_the_perfect_defect.Prelude.Table.{find}
use sts2_the_perfect_defect.Boundary.Json.{Json, json_eq}
use sts2_the_perfect_defect.Contracts.Runtime.{Runtime}
use sts2_the_perfect_defect.Contracts.Request.{request_decode}
use sts2_the_perfect_defect.Contracts.Receipt.{receipt_decode, bind}
use sts2_the_perfect_defect.Hub.Schema.{
  status_eq, log_event, attempt_job, cancelling, requested, acknowledged, unknown,
}
use sts2_the_perfect_defect.Hub.Jobs.{Tx, hub, set_job}
use sts2_the_perfect_defect.Hub.Compute.Rows.{
  set_attempt, no_handle, settled_status, settled_phase, cancelled_result, may_accept,
  settled_event,
}
use sts2_the_perfect_defect.Hub.Compute.Launch.{compute_fenced}

module _ (rt : Runtime) where
  unfoldable pub accept_compute : String → String → String → ℕ → Json → Bool → Tx (Unit {0})
  accept_compute job token attempt fence receipt is_cancelled db = do
    value ← receipt_decode rt receipt
    row ← compute_fenced rt db job token attempt fence
    current ← expect (find attempt_job job db.attempts) (hub "compute_handle_required")
    guard
        (not (no_handle (some current))
          && (current.attempt_id == attempt && current.fence == fence))
        (hub "compute_handle_required")
    request ← request_decode rt current.request
    bind rt value request
    let replayed =
        row.status == settled_status is_cancelled value && current.receipt == some receipt
    branch replayed (ok (tt, db)) (do
      guard (may_accept is_cancelled row.status) (hub "stale_attempt")
      ok (
        tt,
        log_event "scheduler" (settled_event is_cancelled value) job (
            set_job job
              (λ j. record j {
                status = settled_status is_cancelled value;
                result = some (if is_cancelled then cancelled_result value else receipt);
              })
              (set_attempt job
                (λ a. record a { phase = settled_phase is_cancelled value; receipt = some receipt })
                db)),
      ))

  unfoldable pub begin_compute_cancel : String → String → String → ℕ → Tx Bool
  begin_compute_cancel job token attempt fence db = do
    row ← compute_fenced rt db job token attempt fence
    guard (row.status == cancelling) (hub "cancel_handle_required")
    current ← expect (find attempt_job job db.attempts) (hub "cancel_handle_required")
    guard (not (no_handle (some current))) (hub "cancel_handle_required")
    match_option current.cancel_state
        (ok (
          true,
          log_event "scheduler" "compute_cancel_requested" job
              (set_attempt job (λ a. record a { cancel_state = some requested }) db),
        ))
        (λ s. ok (false, db))

  unfoldable pub record_compute_cancel : String → String → String → ℕ → Bool → Tx (Unit {0})
  record_compute_cancel job token attempt fence is_acknowledged db = do
    row ← compute_fenced rt db job token attempt fence
    guard (row.status == cancelling) (hub "stale_attempt")
    ok (
      tt,
      log_event "scheduler"
          (if is_acknowledged then "compute_cancel_acknowledged" else "compute_cancel_unknown") job
          (set_attempt job
            (λ a. record a {
              cancel_state = some (if is_acknowledged then acknowledged else unknown);
            })
            db),
    )
