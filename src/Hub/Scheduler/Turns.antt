-- ===== src/Hub/Scheduler/Turns.antt =====
-- Every part of a tick keeps the provider's calls accounted for, and so does a run of the scheduler.
use sts2_the_perfect_defect.Prelude.{
  ℕ, String, Bool, false, List, [], ◌∷◌, arith, total-append, string_eq, nat_eq,
}
use sts2_the_perfect_defect.Prelude.Result.{Error, Ensures-ok}
use sts2_the_perfect_defect.Contracts.Request.{ComputeRequest}
use sts2_the_perfect_defect.Contracts.Call.{ModalCall}
use sts2_the_perfect_defect.Hub.Schema.{Instant, Job}
use sts2_the_perfect_defect.Hub.Jobs.{claim}
use sts2_the_perfect_defect.Hub.Exec.{
  Preserves, modify, preserve_rules, Preserves-bind, Preserves-modify, Preserves-choose,
  Preserves-pure, Preserves-rescue, Preserves-lift, Preserves-gets, Preserves-raise,
}
use sts2_the_perfect_defect.Hub.Lifecycle
use sts2_the_perfect_defect.Hub.Lifecycle.{
  Effect-refl, Effect-log, Claimed, Claimed-refl, claim-Claimed,
}
use sts2_the_perfect_defect.Hub.Runs.{Change-claim, committed-Ensures}
use sts2_the_perfect_defect.Hub.Scheduler.Base.{Config, World, polling, call, note_call, set_token}
use sts2_the_perfect_defect.Hub.Scheduler.Poll.{
  token_for, cancel_call, index_result, observe, wait, keep_uncertain, poll,
}
use sts2_the_perfect_defect.Hub.Scheduler.Tick.{preflight, launch, submit, dispatch, tick}
use sts2_the_perfect_defect.Hub.Scheduler.Keeps.{
  IsOnce, call-IsOnce, calm-IsOnce, look-IsOnce, submit_of, cancel_of,
}
use sts2_the_perfect_defect.Hub.Scheduler.Intents.{prepare-IsOnce, begin_cancel-IsOnce}

module _ (c : Config) (w : World) where
  open c use {runtime as rt}

  set_token-IsOnce : (job token : String) → Preserves IsOnce (modify (set_token job token))
  unfolding set_token
  set_token-IsOnce job token =
      Preserves-modify _
        λ s h. record { sound = h.sound; submitted = h.submitted; cancelled = h.cancelled }

  token_for-IsOnce :
      (row : Job) (attempt : String) (now : ℕ) → Preserves IsOnce (token_for c w row attempt now)
  unfolding token_for
  token_for-IsOnce row attempt now =
      search (preserve_rules, calm-IsOnce, Lifecycle.recover_compute-Calm, set_token-IsOnce)

  cancel_call-IsOnce :
      (row : Job) (token attempt : String) (handle : ModalCall)
      → Preserves IsOnce (cancel_call c w row token attempt handle)
  unfolding cancel_call
  cancel_call-IsOnce row token attempt handle =
      Preserves-bind _ _
        (Preserves-choose _ _ _ (Preserves-pure tt)
          (calm-IsOnce rt _ (Lifecycle.cancel-Calm row.id)))
        λ _.
          begin_cancel-IsOnce rt row.id token attempt row.fence handle _ _
            (calm-IsOnce rt _ (
              Lifecycle.record_compute_cancel-Calm rt row.id token attempt row.fence
                (w.cancel handle)))
            (Preserves-pure tt)

  index_result-IsOnce : (request : String) → Preserves IsOnce (index_result c w request)
  unfolding index_result
  index_result-IsOnce request = Preserves-choose _ _ _ (Preserves-pure w.indexed) (
      Preserves-bind _ _
        (calm-IsOnce rt _ (λ db.
          Ensures-ok _
            (Effect-log "console" "artifact_index_unavailable" request db db (Effect-refl db))))
        λ _. Preserves-pure false)

  polling-IsOnce :
      (job : String) (handle : ModalCall)
      → Preserves IsOnce (modify (note_call (polling job handle)))
  unfolding note_call
  polling-IsOnce job handle = Preserves-modify _ λ s h. record {
    sound = h.sound;
    submitted = λ id.
        omega
          (arith, h.submitted id, total-append (submit_of id) s.calls (polling job handle ∷ []));
    cancelled = λ id.
        omega
          (arith, h.cancelled id, total-append (cancel_of id) s.calls (polling job handle ∷ []));
  }

  observe-IsOnce :
      (row : Job) (token attempt : String) (request : ComputeRequest) (handle : ModalCall)
      (is_cancelling : Bool)
      → Preserves IsOnce (observe c w row token attempt request handle is_cancelling)
  unfolding observe
  observe-IsOnce row token attempt request handle is_cancelling =
      search
        (
          preserve_rules, calm-IsOnce, Lifecycle.accept_compute-Calm, polling-IsOnce,
          index_result-IsOnce,
        )
        depth 30

  wait-IsOnce :
      (row : Job) (token attempt : String) (handle : ModalCall) (is_cancelling elapsed : Bool)
      (now : ℕ)
      → Preserves IsOnce (wait c w row token attempt handle is_cancelling elapsed now)
  unfolding wait
  wait-IsOnce row token attempt handle is_cancelling elapsed now =
      search (preserve_rules, calm-IsOnce, Lifecycle.heartbeat-Calm, cancel_call-IsOnce) depth 30

  keep_uncertain-IsOnce :
      (row : Job) (token attempt : String) (handle : ModalCall) (is_cancelling elapsed : Bool)
      (e : Error)
      → Preserves IsOnce (keep_uncertain c w row token attempt handle is_cancelling elapsed e)
  unfolding keep_uncertain
  keep_uncertain-IsOnce row token attempt handle is_cancelling elapsed e =
      search (preserve_rules, calm-IsOnce, Lifecycle.compute_uncertain-Calm, cancel_call-IsOnce)

  poll-IsOnce : (row : Job) (now : ℕ) → Preserves IsOnce (poll c w row now)
  unfolding poll
  poll-IsOnce row now =
      search
        (
          preserve_rules, calm-IsOnce, look-IsOnce, Lifecycle.compute_uncertain-Calm,
          cancel_call-IsOnce, token_for-IsOnce, observe-IsOnce, wait-IsOnce, keep_uncertain-IsOnce,
        )
        depth 30

  preflight-IsOnce : (row : Job) (attempt : String) → Preserves IsOnce (preflight c w row attempt)
  unfolding preflight
  preflight-IsOnce row attempt = search preserve_rules depth 30

  submit-IsOnce : (row : Job) (now : ℕ) → Preserves IsOnce (submit c w row now)
  unfolding submit launch
  submit-IsOnce row now = Preserves-bind _ _ (Preserves-lift _) λ attempt.
      Preserves-bind _ _ (set_token-IsOnce row.id w.lease_token) λ _.
        Preserves-rescue _ _ _ (preflight-IsOnce row attempt)
          (λ request.
            prepare-IsOnce rt row.id w.lease_token _ _ _ request _ _
              (search (
                preserve_rules, calm-IsOnce, Lifecycle.compute_uncertain-Calm,
                Lifecycle.bind_compute_handle-Calm,
              ))
              (Preserves-pure _))
          λ e. search (preserve_rules, calm-IsOnce, Lifecycle.fail_before_compute-Calm)

  claim-IsOnce :
      (owner : String) (now : Instant) (lease : ℕ) (token attempt : String)
      → Preserves IsOnce (call rt (claim rt owner now lease token attempt))
  claim-IsOnce owner now lease token attempt = call-IsOnce rt _ 0 λ db sound. Change-claim db _ (
      committed-Ensures (Claimed db) _ db (Claimed-refl db)
        (claim-Claimed rt owner now lease token attempt db sound.keyed_jobs))

  dispatch-IsOnce : (rows jobs : List Job) (now : ℕ) → Preserves IsOnce (dispatch c w rows jobs now)
  unfolding dispatch
  dispatch-IsOnce (row ∷ []) jobs now = poll-IsOnce row now
  dispatch-IsOnce (row ∷ other ∷ more) jobs now = Preserves-raise _
  dispatch-IsOnce [] jobs now = search (preserve_rules, claim-IsOnce, submit-IsOnce)

  tokens-IsOnce :
      (f : List (String × String) → List (String × String))
      → Preserves IsOnce (modify (λ s. record s { tokens = f s.tokens }))
  tokens-IsOnce f =
      Preserves-modify _
        λ s h. record { sound = h.sound; submitted = h.submitted; cancelled = h.cancelled }

  pub tick-IsOnce : (now : Instant) → Preserves IsOnce (tick c w now)
  unfolding tick
  tick-IsOnce now = Preserves-bind _ _ (Preserves-lift _) λ t.
      Preserves-bind _ _ (Preserves-gets _) λ closed. Preserves-choose _ _ _ (Preserves-raise _) (
        Preserves-bind _ _ (look-IsOnce rt _) λ paused. Preserves-choose _ _ _ (Preserves-pure _) (
          Preserves-bind _ _ (calm-IsOnce rt _ (Lifecycle.expire-Calm now)) λ _.
            Preserves-bind _ _ (look-IsOnce rt _)
              λ jobs. Preserves-bind _ _ (tokens-IsOnce _) λ _. dispatch-IsOnce _ jobs t))
