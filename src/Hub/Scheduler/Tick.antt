-- ===== src/Hub/Scheduler/Tick.antt =====
-- `_preflight`, `_submit`, `tick` and `close` of stpd/hub/scheduler.py.
use sts2_the_perfect_defect.Prelude.{
  ℕ, String, Bool, true, false, ◌||◌, none, some, List, [], ◌∷◌, leb, ltb, total, ◌==◌, string_eq,
  nat_eq, if◌then◌else◌,
}
use sts2_the_perfect_defect.Prelude.Result.{Result, ok, err, boundary, type_error, expect, guard}
use sts2_the_perfect_defect.Boundary.Json.{str}
use sts2_the_perfect_defect.Contracts.Request.{
  ComputeRequest, request_init, request_to_dict, request_id,
}
use sts2_the_perfect_defect.Contracts.Call.{target_id, call_to_dict}
use sts2_the_perfect_defect.Hub.Schema.{Instant, at, finite, Job}
use sts2_the_perfect_defect.Hub.Jobs.{get, expire, claim, active_job, reserved}
use sts2_the_perfect_defect.Hub.Compute.{
  prepare_compute, bind_compute_handle, compute_uncertain, fail_before_compute,
}
use sts2_the_perfect_defect.Hub.Exec.{
  Exec, pure, raise, lift, gets, modify, choose, on_option, rescue, ◌>>=◌, ◌>>◌,
}
use sts2_the_perfect_defect.Hub.Scheduler.Base.{
  State, Config, World, Reply, submitting, reply, call, look, note_call, set_token,
}
use sts2_the_perfect_defect.Hub.Scheduler.Poll.{poll, code_or}

-- `{"feature": "features", "training": "training"}.get(kind)`
abbrev provider_kind : String → Result String
provider_kind kind =
    if kind == "feature"
    then ok "features"
    else if kind == "training"
    then ok "training"
    else err (boundary "scheduler" "unsupported_job_kind")

module _ (c : Config) (w : World) where
  open c use {runtime as rt}

  -- `_preflight`; `w.admit` is what the artifact store says of the request.
  unfoldable pub preflight : Job → String → Exec State ComputeRequest
  preflight row attempt = do
    kind ← lift (provider_kind row.kind)
    lift (
        guard (leb c.target.timeout_seconds row.max_seconds)
          (boundary "scheduler" "provider_timeout_exceeds_job_budget"))
    resume ← lift (get row.options "resume")
    stop_after ← lift (get row.options "stop_after")
    request ← lift (
        request_init (str kind) (str row.input_id) c.target.producer (str attempt) resume
          stop_after)
    lift (w.admit request)
    pure request

  -- The call of the provider, once the intent is recorded.
  unfoldable pub launch : Job → String → String → ComputeRequest → Exec State Reply
  launch row token attempt request = do
    modify (note_call (submitting row.id request))
    on_option (w.submit request)
        (do
          call rt (compute_uncertain rt row.id token attempt row.fence "submission_unknown")
          pure (reply "submission_unknown" (some row.id) []))
        (λ handle. do
          call rt (bind_compute_handle rt row.id token attempt row.fence (call_to_dict handle))
          pure (reply "submitted" (some row.id) (("request_id", request_id rt request) ∷ [])))

  -- `_submit`
  unfoldable pub submit : Job → ℕ → Exec State Reply
  submit row now = do
    attempt ← lift (expect row.attempt_id type_error)
    modify (set_token row.id w.lease_token)
    rescue (preflight row attempt)
        (λ request. do
          prepared ← call rt (
              prepare_compute rt row.id w.lease_token (request_to_dict request)
                (target_id rt c.target) (at now))
          choose prepared (launch row w.lease_token attempt request)
              (pure (reply "already_prepared_no_resubmit" (some row.id) [])))
        (λ e. do
          call rt
              (fail_before_compute rt row.id w.lease_token (code_or "input_unavailable" e) (at now))
          pure (
              reply "preflight_failed" (some row.id)
                (("code", code_or "input_unavailable" e) ∷ [])))

  -- The rows of the active jobs, and the secrets that are kept for them.
  active_rows : List Job → List Job
  active_rows [] = []
  active_rows (j ∷ js) = let rest = active_rows js in if active_job j then j ∷ rest else rest

  is_row_of : String → List Job → Bool
  is_row_of id [] = false
  is_row_of id (j ∷ js) = j.id == id || is_row_of id js

  kept_tokens : List Job → List (String × String) → List (String × String)
  unfolding is_row_of
  kept_tokens rows [] = []
  kept_tokens rows ((job, token) ∷ ts) =
      let rest = kept_tokens rows ts in if is_row_of job rows then (job, token) ∷ rest else rest

  -- The rest of a tick, on the rows of the active jobs and of all jobs.
  unfoldable pub dispatch : List Job → List Job → ℕ → Exec State Reply
  dispatch (row ∷ []) jobs now = poll c w row now
  dispatch (row ∷ other ∷ more) jobs now = raise (boundary "scheduler" "multiple_active_jobs")
  dispatch [] jobs now = choose (c.budget_limit == 0) (pure (reply "launch_disabled" none [])) (
      choose (ltb c.budget_limit (total reserved jobs)) (pure (reply "budget_blocked" none [])) (do
        claimed ← call rt (claim rt "scheduler" (at now) 120 w.lease_token w.attempt_id)
        on_option claimed (pure (reply "idle" none [])) (λ row. submit row now)))

  -- `tick`, which holds the scheduler's own lock from the test of `closed` on.
  unfoldable pub tick : Instant → Exec State Reply
  unfolding active_rows kept_tokens
  tick now = do
    t ← lift (finite now (boundary "scheduler" "invalid_clock"))
    closed ← gets (λ s. s.closed)
    choose closed (raise (boundary "scheduler" "scheduler_closed")) (do
      paused ← look rt (λ db. db.paused)
      choose paused (pure (reply "paused_by_operator" none [])) (do
        call rt (expire now)
        jobs ← look rt (λ db. db.jobs)
        modify (λ s. record s { tokens = kept_tokens (active_rows jobs) s.tokens })
        dispatch (active_rows jobs) jobs t))

unfoldable pub close : State → State
close s = if s.closed then s else record s { closed = true; tokens = [] }
