-- ===== src/Hub/Compute/Launch.antt =====
-- `_compute_fenced`, `recover_compute`, `prepare_compute`, `bind_compute_handle`, `compute_uncertain`
-- and `fail_before_compute` of stpd/hub/database.py: up to the answer of the invocation.
use sts2_the_perfect_defect.Prelude.{
  ℕ, String, Bool, true, false, ◌&&◌, ◌||◌, none, some, [], ◌∷◌, ◌++◌, ◌==◌, nat_eq, string_eq,
  option_eq,
}
use sts2_the_perfect_defect.Prelude.Result.{
  Result, ok, err, ◌>>=◌, ◌>>◌, guard, expect, branch, match_option,
}
use sts2_the_perfect_defect.Prelude.Table.{find}
use sts2_the_perfect_defect.Boundary.Json.{Json, str, obj, end, field, json_eq}
use sts2_the_perfect_defect.Boundary.Checks.{check_text, check_digest}
use sts2_the_perfect_defect.Contracts.Runtime.{Runtime}
use sts2_the_perfect_defect.Contracts.Request.{request_decode, opt_str, opt_num}
use sts2_the_perfect_defect.Contracts.Call.{call_decode}
use sts2_the_perfect_defect.Hub.Schema.{
  Instant, finite, status_eq, is_active, Job, Db, log_event, job_id, attempt_job, failed, submitted,
}
use sts2_the_perfect_defect.Hub.Jobs.{Tx, hub, set_job, get, live, holds_lease}
use sts2_the_perfect_defect.Hub.Compute.Rows.{
  set_attempt, worker_kind, no_handle, already_uncertain, uncertain_status, bound_call, new_attempt,
  recovered_status,
}

module _ (rt : Runtime) where
  -- `_compute_fenced`
  unfoldable pub compute_fenced : Db → String → String → String → ℕ → Result Job
  compute_fenced db job token attempt fence = do
    row ← expect (find job_id job db.jobs) (hub "stale_attempt")
    guard (row.attempt_id == some attempt && (row.fence == fence && holds_lease rt row token))
        (hub "stale_attempt")
    ok row

  -- `token` is `secrets.token_urlsafe(32)`, the new secret of the lease.
  unfoldable pub recover_compute : String → String → ℕ → Instant → String → Tx Job
  recover_compute job attempt fence now token db = do
    t ← finite now (hub "invalid_lease")
    row ← expect (find job_id job db.jobs) (hub "stale_attempt")
    guard (row.attempt_id == some attempt && (row.fence == fence && is_active row.status))
        (hub "stale_attempt")
    status ← recovered_status row.status row.lease_until t
    let write = λ (j : Job). record j { lease_hash = some (rt.sha256 token); status = status }
    ok (write row, log_event "scheduler" "attempt_owner_recovered" job (set_job job write db))

  unfoldable pub prepare_compute : String → String → Json → String → Instant → Tx Bool
  prepare_compute job token request target_id now db = do
    value ← request_decode rt request
    check_digest target_id "compute.target_id" 64
    row ← live rt db job token now
    same ←
        branch (row.attempt_id == some value.attempt_id && value.input_id == row.input_id)
          (do kind ← worker_kind row.kind; ok (value.kind == kind)) (ok false)
    guard same (hub "compute_request_job_mismatch")
    resume ← get row.options "resume"
    stop_after ← get row.options "stop_after"
    guard (opt_str value.resume == resume && opt_num value.stop_after == stop_after)
        (hub "compute_request_options_mismatch")
    match_option (find attempt_job job db.attempts)
        (ok (
          true,
          log_event "scheduler" "compute_submission_intent" job (record db {
            attempts = db.attempts ++ new_attempt job target_id request row.fence rt value ∷ [];
          }),
        ))
        (λ prior. do
          guard
              (prior.request == request
                && (prior.target_id == target_id && prior.fence == row.fence))
              (hub "compute_request_conflict")
          ok (false, db))

  unfoldable pub bind_compute_handle : String → String → String → ℕ → Json → Tx (Unit {0})
  bind_compute_handle job token attempt fence handle db = do
    value ← call_decode rt handle
    row ← compute_fenced db job token attempt fence
    guard (is_active row.status) (hub "compute_handle_mismatch")
    current ← expect (find attempt_job job db.attempts) (hub "compute_handle_mismatch")
    guard (bound_call current value attempt rt value.target_id) (hub "compute_handle_mismatch")
    guard (current.handle == none || current.handle == some handle)
        (hub "provider_reference_conflict")
    ok (
      tt,
      log_event "scheduler" "compute_handle_bound" job (
          set_job job (λ j. record j { provider_ref = some value.call_id })
            (set_attempt job (λ a. record a { handle = some handle; phase = submitted }) db)),
    )

  unfoldable pub compute_uncertain : String → String → String → ℕ → String → Tx (Unit {0})
  compute_uncertain job token attempt fence code db = do
    check_text code "compute.code" 128
    row ← compute_fenced db job token attempt fence
    guard (is_active row.status) (hub "stale_attempt")
    let current = find attempt_job job db.attempts
    let status = uncertain_status row.status (no_handle current)
    branch (already_uncertain current row.status status code) (ok (tt, db)) (
        ok (
          tt,
          log_event "scheduler" "compute_uncertain" job (
              set_job job (λ j. record j { status = status })
                (set_attempt job (λ a. record a { last_error = some code }) db)),
        ))

  unfoldable pub fail_before_compute : String → String → String → Instant → Tx (Unit {0})
  fail_before_compute job token code now db = do
    check_text code "compute.code" 128
    row ← live rt db job token now
    guard (row.provider_ref == none) (hub "submission_may_exist")
    match_option (find attempt_job job db.attempts)
        (ok (
          tt,
          log_event "scheduler" "compute_preflight_failed" job (
              set_job job
                (λ j. record j {
                  status = failed;
                  result =
                      some (obj (field "code" (str code) (field "stage" (str "preflight") end)));
                })
                db),
        ))
        (λ a. err (hub "submission_may_exist"))
