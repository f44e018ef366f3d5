-- ===== src/Hub/Scheduler/Poll.antt =====
-- `_token`, `_cancel`, `_index_result` and `_poll` of stpd/hub/scheduler.py: one look at the active
-- job's invocation. Nothing here calls `submit`.
use sts2_the_perfect_defect.Prelude.{
  ℕ, String, Bool, true, false, ◌&&◌, ◌||◌, not, Option, none, some, [], ◌∷◌, leb, ◌==◌, string_eq,
  nat_eq, option_eq, if◌then◌else◌,
}
use sts2_the_perfect_defect.Prelude.Result.{Error, ok, boundary, type_error, expect}
use sts2_the_perfect_defect.Prelude.Table.{find}
use sts2_the_perfect_defect.Boundary.Json.{Json}
use sts2_the_perfect_defect.Contracts.Producer.{producer_eq}
use sts2_the_perfect_defect.Contracts.Request.{
  ComputeRequest, request_decode, request_id, request_beq,
}
use sts2_the_perfect_defect.Contracts.Receipt.{receipt_to_dict, bind}
use sts2_the_perfect_defect.Contracts.Call.{ModalCall, call_decode, target_id}
use sts2_the_perfect_defect.Hub.Schema.{
  at, status_eq, Job, ComputeAttempt, attempt_job, running, cancelling, log_event,
}
use sts2_the_perfect_defect.Hub.Jobs
use sts2_the_perfect_defect.Hub.Compute.{
  recover_compute, compute_uncertain, accept_compute, begin_compute_cancel, record_compute_cancel,
}
use sts2_the_perfect_defect.Hub.Exec.{
  Exec, pure, lift, gets, modify, choose, on_option, rescue, ◌>>=◌, ◌>>◌,
}
use sts2_the_perfect_defect.Hub.Scheduler.Base.{
  State, Config, World, Reply, ProviderCall, polling, reply, call, look, note_call, token_of,
  set_token,
}

-- `error.code if isinstance(error, BoundaryError) else ...`
abbrev pub code_or : String → Error → String
code_or other (boundary stage code) = code
code_or other _ = other

-- A saved attempt together with its handle, if it has one.
abbrev bound : Option ComputeAttempt → Option (ComputeAttempt × Json)
bound none = none
bound (some a) = elim a.handle [ none ↦ none | some h ↦ some (a, h) ]

module _ (c : Config) (w : World) where
  open c use {runtime as rt}

  -- `_token`
  unfoldable pub token_for : Job → String → ℕ → Exec State String
  token_for row attempt now = do
    tokens ← gets (λ s. s.tokens)
    on_option (token_of row.id tokens)
        (do
          call rt (recover_compute rt row.id attempt row.fence (at now) w.recovered_token)
          modify (set_token row.id w.recovered_token)
          pure w.recovered_token)
        pure

  -- `_cancel`
  unfoldable pub cancel_call : Job → String → String → ModalCall → Exec State (Unit {0})
  cancel_call row token attempt handle = do
    choose (row.status == cancelling) (pure tt) (call rt (Jobs.cancel row.id))
    begun ← call rt (begin_compute_cancel rt row.id token attempt row.fence)
    choose begun
        (do
          modify (note_call (ProviderCall.cancelling row.id handle))
          call rt (record_compute_cancel rt row.id token attempt row.fence (w.cancel handle)))
        (pure tt)

  -- `_index_result`: only the event of a failure touches the modelled tables.
  unfoldable pub index_result : String → Exec State Bool
  index_result request = choose (w.indexed || not w.index_event) (pure w.indexed) (do
    call rt (λ db. ok (tt, log_event "console" "artifact_index_unavailable" request db))
    pure false)

  -- The test of the saved invocation against the target, the row and its own documents.
  abbrev is_mismatch : Job → String → ComputeAttempt → ComputeRequest → ModalCall → Bool
  is_mismatch row attempt saved request handle = not (
      saved.target_id == target_id rt c.target
      && (handle.target_id == saved.target_id
          && (request_beq handle.request request
              && (row.provider_ref == some handle.call_id
                  && (saved.attempt_id == attempt && saved.fence == row.fence)))))

  -- The body of the `try`: a reply, or none where the invocation has not ended.
  unfoldable pub observe :
      Job → String → String → ComputeRequest → ModalCall → Bool → Exec State (Option Reply)
  observe row token attempt request handle is_cancelling = do
    modify (note_call (polling row.id handle))
    outcome ← lift (w.poll handle)
    on_option outcome (pure none) λ receipt. do
      lift (bind rt receipt request)
      choose is_cancelling
          (do
            call rt
                (accept_compute rt row.id token attempt row.fence (receipt_to_dict receipt) true)
            pure (some (reply "cancelled" (some row.id) [])))
          (do
            lift (w.validate request receipt)
            call rt
                (accept_compute rt row.id token attempt row.fence (receipt_to_dict receipt) false)
            indexed ← index_result receipt.request_id
            pure (
                some (
                  reply (if receipt.state == "paused" then "paused" else "completed") (some row.id)
                    (("request_id", request_id rt request)
                      ∷ ("console_index_status", if indexed then "available" else "unavailable")
                      ∷ []))))

  -- After an observation that found no receipt: stop at the deadline, or keep the lease alive.
  unfoldable pub wait : Job → String → String → ModalCall → Bool → Bool → ℕ → Exec State Reply
  wait row token attempt handle is_cancelling elapsed now = do
    choose (elapsed && not is_cancelling) (cancel_call row token attempt handle) (pure tt)
    choose (is_cancelling || elapsed)
        (pure (
          reply "cancelling" (some row.id)
            (("recovery", "await_exact_provider_terminal_evidence") ∷ [])))
        (do
          choose (row.status == running) (call rt (Jobs.heartbeat rt row.id token (at now) 120))
              (pure tt)
          pure (reply "pending" (some row.id) []))

  -- The handler of the `try`: the attempt and its handle are kept, and polled again.
  unfoldable pub keep_uncertain :
      Job → String → String → ModalCall → Bool → Bool → Error → Exec State Reply
  keep_uncertain row token attempt handle is_cancelling elapsed e = do
    choose (elapsed && not is_cancelling) (cancel_call row token attempt handle) (pure tt)
    call rt (compute_uncertain rt row.id token attempt row.fence (code_or "result_unavailable" e))
    pure (reply "result_uncertain" (some row.id) (("code", code_or "result_unavailable" e) ∷ []))

  -- `_poll`. An active row has an attempt and a deadline; a row without them would be a TypeError.
  unfoldable pub poll : Job → ℕ → Exec State Reply
  poll row now = do
    attempt ← lift (expect row.attempt_id type_error)
    token ← token_for row attempt now
    saved ← look rt (λ db. bound (find attempt_job row.id db.attempts))
    on_option saved
        (do
          call rt (compute_uncertain rt row.id token attempt row.fence "handle_not_recorded")
          pure (
              reply "submission_unknown" (some row.id)
                (("recovery", "provider_reconciliation_required") ∷ [])))
        λ (a, document). do
          request ← lift (request_decode rt a.request)
          handle ← lift (call_decode rt document)
          choose (is_mismatch row attempt a request handle)
              (do
                call rt
                    (compute_uncertain rt row.id token attempt row.fence "saved_handle_mismatch")
                pure (reply "target_or_handle_mismatch" (some row.id) []))
              (do
                deadline ← lift (expect row.deadline type_error)
                choose (row.status == cancelling) (cancel_call row token attempt handle) (pure tt)
                rescue (observe row token attempt request handle (row.status == cancelling))
                    (λ r.
                      on_option r
                        (wait row token attempt handle (row.status == cancelling) (leb deadline now)
                          now)
                        pure)
                    (keep_uncertain row token attempt handle (row.status == cancelling)
                      (leb deadline now)))
