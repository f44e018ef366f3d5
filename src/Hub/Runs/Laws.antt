-- ===== src/Hub/Runs/Laws.antt =====
-- What stays true of one job and of its invocation, whatever is called afterwards.
use sts2_the_perfect_defect.Prelude.{◌≡◌, ◌⊎◌, String, true, some, List, arith}
use sts2_the_perfect_defect.Prelude.Table.{find}
use sts2_the_perfect_defect.Prelude.Evolve.{find-Evolves}
use sts2_the_perfect_defect.Boundary.Json.{Json}
use sts2_the_perfect_defect.Contracts.Runtime.{Runtime}
use sts2_the_perfect_defect.Hub.Schema.{
  Job, Db, ComputeAttempt, Status, job_id, attempt_job, is_settled, cancelling, cancelled,
}
use sts2_the_perfect_defect.Hub.Calls.{Call, perform_all}
use sts2_the_perfect_defect.Hub.Lifecycle.{
  JobStep, AttemptStep, AnyAttempt, settled_stays, may_become,
}
use sts2_the_perfect_defect.Hub.Runs.Invariant.{
  IsSound, IsCounted, perform_all-jobs, perform_all-attempts,
}

cancelling_next :
    (s t : Status) → s ≡ cancelling → may_become s t ≡ true → (t ≡ cancelling) ⊎ (t ≡ cancelled)
cancelling_next s t e h = ground arith

module _ (rt : Runtime) (cs : List Call) (db : Db) (sound : IsSound db) where
  abbrev after : Db
  after = perform_all rt cs db

  -- No call deletes a job: its row is found again, one step of its life on.
  pub job_after :
      (id : String) (j : Job)
      → find job_id id db.jobs ≡ some j
      → (k : Job) × (find job_id id after.jobs ≡ some k) × JobStep j k
  job_after id j found =
      find-Evolves JobStep IsCounted job_id id db.jobs after.jobs j (λ r s p. p.id)
        (perform_all-jobs rt cs db sound) found

  pub attempt_after :
      (id : String) (a : ComputeAttempt)
      → find attempt_job id db.attempts ≡ some a
      → (b : ComputeAttempt) × (find attempt_job id after.attempts ≡ some b) × AttemptStep a b
  attempt_after id a found =
      find-Evolves AttemptStep AnyAttempt attempt_job id db.attempts after.attempts a
        (λ r s p. p.job_id) (perform_all-attempts rt cs db sound) found

  -- A completed, paused, failed or cancelled job keeps its state and its result for ever.
  pub settled_is_final :
      (id : String) (j : Job)
      → find job_id id db.jobs ≡ some j
      → is_settled j.status ≡ true
      → (k : Job) × (find job_id id after.jobs ≡ some k)
        × (k.status ≡ j.status)
        × (k.result ≡ j.result)
  settled_is_final id j found settled =
      let (k, found', step) = job_after id j found in
      (k, found', settled_stays j.status k.status settled step.moves, step.result_kept settled)

  -- A cancelling job can only stay so or end cancelled: it never completes, pauses or fails.
  pub cancelling_ends_cancelled :
      (id : String) (j : Job)
      → find job_id id db.jobs ≡ some j
      → j.status ≡ cancelling
      → (k : Job) × (find job_id id after.jobs ≡ some k)
        × ((k.status ≡ cancelling) ⊎ (k.status ≡ cancelled))
  cancelling_ends_cancelled id j found e =
      let (k, found', step) = job_after id j found in
      (k, found', cancelling_next j.status k.status e step.moves)

  -- A bound handle is never replaced, nor the request and the target that it answers.
  pub handle_is_final :
      (id : String) (a : ComputeAttempt) (handle : Json)
      → find attempt_job id db.attempts ≡ some a
      → a.handle ≡ some handle
      → (b : ComputeAttempt) × (find attempt_job id after.attempts ≡ some b)
        × (b.handle ≡ some handle)
        × (b.request ≡ a.request)
        × (b.target_id ≡ a.target_id)
  handle_is_final id a handle found bound =
      let (b, found', step) = attempt_after id a found in
      (b, found', ground (arith, step.handle_kept), step.request, step.target_id)
