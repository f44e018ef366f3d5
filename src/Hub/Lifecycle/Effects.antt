-- ===== src/Hub/Lifecycle/Effects.antt =====
-- The effect of a transaction on the tables, from the steps that its updates take.
use sts2_the_perfect_defect.Prelude.{◌≡◌, String, some, nat_eq}
use sts2_the_perfect_defect.Prelude.Result.{Result, Ensures}
use sts2_the_perfect_defect.Prelude.Table.{find}
use sts2_the_perfect_defect.Prelude.Keyed.{update-IsKeyed}
use sts2_the_perfect_defect.Prelude.Evolve.{Evolves-refl, Evolves-update}
use sts2_the_perfect_defect.Hub.Schema.{
  Job, ComputeAttempt, Db, log_event, job_id, attempt_job, status_eq,
}
use sts2_the_perfect_defect.Hub.Jobs.{set_job}
use sts2_the_perfect_defect.Hub.Compute.{set_attempt}
use sts2_the_perfect_defect.Hub.Lifecycle.Steps.{
  AttemptStep, NoJob, AnyAttempt, Effect, CalmStep, CalmStep-refl, AttemptStep-refl,
}

-- What a transaction ensures of the database that it commits.
abbrev pub Calm : Db → {A : Type 0} → Result (A × Db) → Type 0
Calm db {A} r = Ensures (λ (p : A × Db). Effect CalmStep NoJob db p.1) r

pub Effect-log :
    {S : Job → Job → Type 0} {N : Job → Type 0} (actor operation subject : String) (db db' : Db)
    → Effect S N db db'
    → Effect S N db (log_event actor operation subject db')
unfolding log_event
Effect-log actor operation subject db db' e = record {
  jobs = e.jobs;
  attempts = e.attempts;
  keyed_jobs = e.keyed_jobs;
  keyed_attempts = e.keyed_attempts;
}

pub Effect-job :
    (job : String) (f : Job → Job) (db : Db)
    → ((r : Job) → find job_id job db.jobs ≡ some r → CalmStep r (f r))
    → Effect CalmStep NoJob db (set_job job f db)
Effect-job job f db step = record {
  jobs = Evolves-update CalmStep NoJob job_id job f db.jobs CalmStep-refl step;
  attempts = Evolves-refl AttemptStep AnyAttempt db.attempts AttemptStep-refl;
  keyed_jobs = update-IsKeyed job_id job f db.jobs (λ r p. (step r p).0.id);
  keyed_attempts = λ h. h;
}

pub Effect-attempt :
    (job : String) (f : ComputeAttempt → ComputeAttempt) (db : Db)
    → ((a : ComputeAttempt) → find attempt_job job db.attempts ≡ some a → AttemptStep a (f a))
    → Effect CalmStep NoJob db (set_attempt job f db)
Effect-attempt job f db step = record {
  jobs = Evolves-refl CalmStep NoJob db.jobs CalmStep-refl;
  attempts =
      Evolves-update AttemptStep AnyAttempt attempt_job job f db.attempts AttemptStep-refl step;
  keyed_jobs = λ h. h;
  keyed_attempts = update-IsKeyed attempt_job job f db.attempts (λ a p. (step a p).job_id);
}

pub Effect-both :
    (job : String) (f : Job → Job) (g : ComputeAttempt → ComputeAttempt) (db : Db)
    → ((r : Job) → find job_id job db.jobs ≡ some r → CalmStep r (f r))
    → ((a : ComputeAttempt) → find attempt_job job db.attempts ≡ some a → AttemptStep a (g a))
    → Effect CalmStep NoJob db (set_job job f (set_attempt job g db))
Effect-both job f g db step step' = record {
  jobs = (Effect-job job f db step).jobs;
  attempts = (Effect-attempt job g db step').attempts;
  keyed_jobs = (Effect-job job f db step).keyed_jobs;
  keyed_attempts = (Effect-attempt job g db step').keyed_attempts;
}
