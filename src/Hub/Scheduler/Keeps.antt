-- ===== src/Hub/Scheduler/Keeps.antt =====
-- The provider's calls against the database: a job is submitted only with a recorded intent, and a
-- call is cancelled only with a recorded request.
use sts2_the_perfect_defect.Prelude.{
  ℕ, ◌≤◌, ◌≡◌, refl, String, Option, none, some, List, [], ◌∷◌, arith, total, ◌==◌, string_eq,
  if◌then◌else◌,
}
use sts2_the_perfect_defect.Prelude.Result.{Result, ok, err, Ensures, Ensures-ok}
use sts2_the_perfect_defect.Prelude.Table.{find}
use sts2_the_perfect_defect.Prelude.Evolve.{find-Evolves}
use sts2_the_perfect_defect.Contracts.Runtime.{Runtime}
use sts2_the_perfect_defect.Hub.Schema.{Db, ComputeAttempt, attempt_job}
use sts2_the_perfect_defect.Hub.Jobs.{Tx}
use sts2_the_perfect_defect.Hub.Calls.{Call, perform_all, committed}
use sts2_the_perfect_defect.Hub.Exec.{Preserves}
use sts2_the_perfect_defect.Hub.Lifecycle.{
  Effect, Effect-refl, CalmStep, NoJob, AttemptStep, AnyAttempt,
}
use sts2_the_perfect_defect.Hub.Runs.{
  IsSound, Change, Change-IsSound, calm, perform_all-IsSound, attempt_after,
}
use sts2_the_perfect_defect.Hub.Scheduler.Base.{
  State, ProviderCall, submitting, cancelling, call, look, after_others, transacted,
}

abbrev pub submit_of : String → ProviderCall → ℕ
submit_of job (submitting j r) = if j == job then 1 else 0
submit_of job _ = 0

abbrev pub cancel_of : String → ProviderCall → ℕ
cancel_of job (cancelling j h) = if j == job then 1 else 0
cancel_of job _ = 0

-- How often the provider was asked to run a job, and to cancel it.
abbrev pub submits : String → List ProviderCall → ℕ
submits job calls = total (submit_of job) calls

abbrev pub cancels : String → List ProviderCall → ℕ
cancels job calls = total (cancel_of job) calls

-- Whether a job has an intent, and whether its cancellation was asked for.
abbrev pub intents : Option ComputeAttempt → ℕ
intents none = 0
intents (some a) = 1

abbrev pub cancel_requests : Option ComputeAttempt → ℕ
cancel_requests none = 0
cancel_requests (some a) = elim a.cancel_state [ none ↦ 0 | some c ↦ 1 ]

pub record IsOnce (s : State) : Type 0 where
  pub sound : IsSound s.db
  pub submitted :
      (job : String) → submits job s.calls ≤ intents (find attempt_job job s.db.attempts)
  pub cancelled :
      (job : String) → cancels job s.calls ≤ cancel_requests (find attempt_job job s.db.attempts)

-- The attempts of one database against those of a later one.
abbrev pub Later : Db → Db → Type 0
Later db db' =
    (job : String)
    → (intents (find attempt_job job db.attempts) ≤ intents (find attempt_job job db'.attempts))
      × (cancel_requests (find attempt_job job db.attempts)
          ≤ cancel_requests (find attempt_job job db'.attempts))

step_later :
    (o p : Option ComputeAttempt)
    → ((a : ComputeAttempt) → o ≡ some a → (b : ComputeAttempt) × (p ≡ some b) × AttemptStep a b)
    → (intents o ≤ intents p) × (cancel_requests o ≤ cancel_requests p)
step_later none p h = omega arith
step_later (some a) p h = let (b, e, step) = h a refl in ground (arith, step.cancel_kept)

pub IsOnce-db :
    (s : State) (db : Db) → IsOnce s → IsSound db → Later s.db db → IsOnce (record s { db = db })
IsOnce-db s db h sound later = record {
  sound = sound;
  submitted = λ job. omega (arith, h.submitted job, (later job).0);
  cancelled = λ job. omega (arith, h.cancelled job, (later job).1);
}

module _ (rt : Runtime) where
  pub Change-Later : (n : ℕ) (db db' : Db) → Change n db db' → Later db db'
  Change-Later n db db' c job =
      step_later (find attempt_job job db.attempts) (find attempt_job job db'.attempts) λ a found.
        find-Evolves AttemptStep AnyAttempt attempt_job job db.attempts db'.attempts a
          (λ r u p. p.job_id) c.attempts found

  pub others-IsOnce :
      (s : State) (css : List (List Call)) → IsOnce s → IsOnce (after_others rt s css)
  unfolding after_others
  others-IsOnce s [] h = h
  others-IsOnce s (cs ∷ more) h =
      let later : Later s.db (perform_all rt cs s.db) = λ job.
        step_later (find attempt_job job s.db.attempts)
          (find attempt_job job (perform_all rt cs s.db).attempts)
          (attempt_after rt cs s.db h.sound job) in
      let kept =
        IsOnce-db s (perform_all rt cs s.db) h (perform_all-IsSound rt cs s.db h.sound) later in
      record { sound = kept.sound; submitted = kept.submitted; cancelled = kept.cancelled }

  transacted-IsOnce :
      {A : Type 0} (s : State) (r : Result (A × Db)) (n : ℕ)
      → IsOnce s
      → Change n s.db (committed r s.db)
      → IsOnce (transacted s r).1
  unfolding transacted
  transacted-IsOnce s (ok (a, db)) n h c =
      IsOnce-db s db h (Change-IsSound n s.db db h.sound c) (Change-Later n s.db db c)
  transacted-IsOnce s (err e) n h c = h

  -- A transaction that is a change of the tables keeps the provider's calls accounted for.
  pub call-IsOnce :
      {A : Type 0} (m : Tx A) (n : ℕ)
      → ((db : Db) → IsSound db → Change n db (committed (m db) db))
      → Preserves IsOnce (call rt m)
  unfolding call
  call-IsOnce m n change = record {
    step = λ s h.
        let t = after_others rt s s.others in
        let ht = others-IsOnce s s.others h in
        transacted-IsOnce t (m t.db) n ht (change t.db ht.sound);
  }

  pub calm-IsOnce :
      {A : Type 0} (m : Tx A)
      → ((db : Db) → Ensures (λ (p : A × Db). Effect CalmStep NoJob db p.1) (m db))
      → Preserves IsOnce (call rt m)
  calm-IsOnce m effect = call-IsOnce m 0 (λ db sound. calm rt (m db) db (effect db))

  pub look-IsOnce : {A : Type 0} (f : Db → A) → Preserves IsOnce (look rt f)
  unfolding look
  look-IsOnce f = calm-IsOnce _ (λ db. Ensures-ok _ (Effect-refl db))
