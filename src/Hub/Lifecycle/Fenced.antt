-- ===== src/Hub/Lifecycle/Fenced.antt =====
-- The effect of each compute operation.
use sts2_the_perfect_defect.Prelude.{
  ℕ, ◌≡◌, String, Bool, true, none, some, [], ◌∷◌, ◌||◌, arith, ◌==◌, nat_eq,
}
use sts2_the_perfect_defect.Prelude.Result.{
  ok, ◌>>=◌, Ensures-ok, Ensures-err, Ensures-guard, Ensures-branch, Ensures-bind, Ensures-match,
  Ensures-expect,
}
use sts2_the_perfect_defect.Prelude.Table.{find}
use sts2_the_perfect_defect.Prelude.Keyed.{append-IsKeyed}
use sts2_the_perfect_defect.Prelude.Evolve.{Evolves-append}
use sts2_the_perfect_defect.Boundary.Json.{Json}
use sts2_the_perfect_defect.Contracts.Runtime.{Runtime}
use sts2_the_perfect_defect.Hub.Schema.{
  is_active, Instant, Status, Job, ComputeAttempt, Db, job_id, attempt_job, status_eq,
}
use sts2_the_perfect_defect.Contracts.Receipt.{ComputeReceipt}
use sts2_the_perfect_defect.Hub.Compute.{
  compute_fenced, recover_compute, recovered_status, prepare_compute, new_attempt,
  bind_compute_handle, compute_uncertain, uncertain_status, no_handle, fail_before_compute,
  accept_compute, may_accept, settled_status, begin_compute_cancel, record_compute_cancel,
}
use sts2_the_perfect_defect.Hub.Lifecycle.Local.{live-running}
use sts2_the_perfect_defect.Prelude.{option_eq, option_beq_iff}
use sts2_the_perfect_defect.Boundary.Json.{json_eq}
use sts2_the_perfect_defect.Hub.Schema.{submitted}
use sts2_the_perfect_defect.Hub.Lifecycle.Steps.{
  may_become_refl, AttemptStep, AnyAttempt, Effect-refl, CalmStep, AttemptStep-refl, JobStep-refl,
}
use sts2_the_perfect_defect.Hub.Lifecycle.Effects.{
  Calm, Effect-log, Effect-job, Effect-attempt, Effect-both,
}

handle_step :
    (current a : ComputeAttempt) (handle : Json)
    → current ≡ a
    → (current.handle == none || current.handle == some handle) ≡ true
    → AttemptStep a (record a { handle = some handle; phase = submitted })
handle_step current a handle e h = ground (
  arith,
  AttemptStep-refl a,
  option_beq_iff current.handle none,
  option_beq_iff current.handle (some handle),
)

uncertain_step :
    (row r : Job) (missing : Bool)
    → row ≡ r
    → is_active row.status ≡ true
    → CalmStep r (record r { status = uncertain_status row.status missing })
uncertain_step row r missing e a = ground arith

accept_step :
    (row r : Job) (is_cancelled : Bool) (value : ComputeReceipt) (result : Json)
    → row ≡ r
    → may_accept is_cancelled row.status ≡ true
    → CalmStep r (record r { status = settled_status is_cancelled value; result = some result })
accept_step row r is_cancelled value result e a = ground arith

module _ (rt : Runtime) where
  pub fenced-found :
      (db : Db) (job token attempt : String) (fence : ℕ) (row : Job)
      → compute_fenced rt db job token attempt fence ≡ ok row
      → find job_id job db.jobs ≡ some row
  unfolding compute_fenced ◌>>=◌
  fenced-found db job token attempt fence row h = ground arith

  recover_step :
      (row r : Job) (t : ℕ) (status : Status) (hash : String)
      → row ≡ r
      → is_active row.status ≡ true
      → recovered_status row.status row.lease_until t ≡ ok status
      → CalmStep r (record r { lease_hash = some hash; status = status })
  recover_step row r t status hash e a h = ground (arith, JobStep-refl r, may_become_refl r.status)

  pub recover_compute-Calm :
      (job attempt : String) (fence : ℕ) (now : Instant) (token : String) (db : Db)
      → Calm db (recover_compute rt job attempt fence now token db)
  unfolding recover_compute
  recover_compute-Calm job attempt fence now token db = Ensures-bind _ _ λ t _.
      Ensures-expect _ _ _ λ row h. Ensures-guard _ _ _ λ g. Ensures-bind _ _ λ status e.
        Ensures-ok _ (
          Effect-log _ _ _ db _ (
            Effect-job job _ db λ r found.
              recover_step row r t status (rt.sha256 token) (ground arith) (ground arith) e))

  pub prepare_compute-Calm :
      (job token : String) (request : Json) (target : String) (now : Instant) (db : Db)
      → Calm db (prepare_compute rt job token request target now db)
  unfolding prepare_compute
  prepare_compute-Calm job token request target now db = Ensures-bind _ _ λ value _.
      Ensures-bind _ _ λ _ _. Ensures-bind _ _ λ row _. Ensures-bind _ _ λ kind _.
        Ensures-guard _ _ _ λ _. Ensures-bind _ _ λ resume _. Ensures-bind _ _ λ stop _.
          Ensures-guard _ _ _ λ _.
            Ensures-match _ _ _
              (λ free. Ensures-ok _ (
                Effect-log _ _ _ db _ (record {
                  jobs = (Effect-refl db).jobs;
                  attempts =
                      Evolves-append AttemptStep AnyAttempt db.attempts
                        (new_attempt job target request row.fence rt value ∷ []) AttemptStep-refl
                        (tt, tt);
                  keyed_jobs = λ h. h;
                  keyed_attempts =
                      append-IsKeyed attempt_job db.attempts
                        (new_attempt job target request row.fence rt value) free;
                })))
              (λ prior _. Ensures-guard _ _ _ λ _. Ensures-ok _ (Effect-refl db))

  pub bind_compute_handle-Calm :
      (job token attempt : String) (fence : ℕ) (handle : Json) (db : Db)
      → Calm db (bind_compute_handle rt job token attempt fence handle db)
  unfolding bind_compute_handle
  bind_compute_handle-Calm job token attempt fence handle db = Ensures-bind _ _ λ value _.
      Ensures-bind _ _ λ row h. Ensures-guard _ _ _ λ live_. Ensures-expect _ _ _ λ current found.
        Ensures-guard _ _ _ λ _. Ensures-guard _ _ _ λ same. Ensures-ok _ (
          Effect-log _ _ _ db _ (
            Effect-both job _ _ db (λ r f. ground (arith, JobStep-refl r))
              (λ a f. handle_step current a handle (ground arith) same)))

  pub compute_uncertain-Calm :
      (job token attempt : String) (fence : ℕ) (code : String) (db : Db)
      → Calm db (compute_uncertain rt job token attempt fence code db)
  unfolding compute_uncertain
  compute_uncertain-Calm job token attempt fence code db = Ensures-bind _ _ λ _ _.
      Ensures-bind _ _ λ row h. Ensures-guard _ _ _ λ a.
        Ensures-branch _ _ _ (λ _. Ensures-ok _ (Effect-refl db))
          λ _. Ensures-ok _ (
            Effect-log _ _ _ db _ (
              Effect-both job _ _ db
                (λ r f.
                  let row-eq : row ≡ r =
                    ground (arith, fenced-found db job token attempt fence row h) in
                  uncertain_step row r (no_handle (find attempt_job job db.attempts)) row-eq a)
                (λ b f. ground (arith, AttemptStep-refl b))))

  pub fail_before_compute-Calm :
      (job token code : String) (now : Instant) (db : Db)
      → Calm db (fail_before_compute rt job token code now db)
  unfolding fail_before_compute
  fail_before_compute-Calm job token code now db = Ensures-bind _ _ λ _ _. Ensures-bind _ _ λ row h.
      Ensures-guard _ _ _ λ _.
        Ensures-match _ _ _
          (λ _. Ensures-ok _ (
            Effect-log _ _ _ db _ (
              Effect-job job _ db
                λ r found. ground (arith, live-running rt db job token now row h))))
          (λ _ _. Ensures-err _)

  pub accept_compute-Calm :
      (job token attempt : String) (fence : ℕ) (receipt : Json) (is_cancelled : Bool) (db : Db)
      → Calm db (accept_compute rt job token attempt fence receipt is_cancelled db)
  unfolding accept_compute
  accept_compute-Calm job token attempt fence receipt is_cancelled db = Ensures-bind _ _ λ value _.
      Ensures-bind _ _ λ row h. Ensures-expect _ _ _ λ current _. Ensures-guard _ _ _ λ _.
        Ensures-bind _ _ λ request _. Ensures-bind _ _ λ _ _.
          Ensures-branch _ _ _ (λ _. Ensures-ok _ (Effect-refl db))
            λ _. Ensures-guard _ _ _ λ a. Ensures-ok _ (
              Effect-log _ _ _ db _ (
                Effect-both job _ _ db
                  (λ r f.
                    let row-eq : row ≡ r =
                      ground (arith, fenced-found db job token attempt fence row h) in
                    accept_step row r is_cancelled value _ row-eq a)
                  (λ b f. ground (arith, AttemptStep-refl b))))

  pub begin_compute_cancel-Calm :
      (job token attempt : String) (fence : ℕ) (db : Db)
      → Calm db (begin_compute_cancel rt job token attempt fence db)
  unfolding begin_compute_cancel
  begin_compute_cancel-Calm job token attempt fence db = Ensures-bind _ _ λ row _.
      Ensures-guard _ _ _ λ _. Ensures-expect _ _ _ λ current _. Ensures-guard _ _ _ λ _.
        Ensures-match _ _ _
          (λ _. Ensures-ok _ (
            Effect-log _ _ _ db _
              (Effect-attempt job _ db λ a f. ground (arith, AttemptStep-refl a))))
          (λ _ _. Ensures-ok _ (Effect-refl db))

  pub record_compute_cancel-Calm :
      (job token attempt : String) (fence : ℕ) (acknowledged : Bool) (db : Db)
      → Calm db (record_compute_cancel rt job token attempt fence acknowledged db)
  unfolding record_compute_cancel
  record_compute_cancel-Calm job token attempt fence acknowledged db = Ensures-bind _ _ λ row _.
      Ensures-guard _ _ _ λ _.
        Ensures-ok _ (
          Effect-log _ _ _ db _ (Effect-attempt job _ db λ a f. ground (arith, AttemptStep-refl a)))
