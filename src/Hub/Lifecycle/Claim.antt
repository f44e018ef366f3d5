-- ===== src/Hub/Lifecycle/Claim.antt =====
-- The effect of `claim`, the one operation that starts a job: the oldest queued row takes its first
-- attempt, and only where no other job is active.
use sts2_the_perfect_defect.Prelude.{
  ℕ, ◌+◌, ◌≤◌, ◌≡◌, ◌⊎◌, inl, inr, refl, String, true, Option, none, some, List, [], ◌∷◌, arith,
  total, leb, min, nat_eq, string_eq,
}
use sts2_the_perfect_defect.Prelude.Result.{
  Ensures, Ensures-ok, Ensures-guard, Ensures-branch, Ensures-bind, Ensures-match,
}
use sts2_the_perfect_defect.Prelude.Table.{find, first_where, total-update}
use sts2_the_perfect_defect.Prelude.Keyed.{
  IsKeyed, update-IsKeyed, find-first_where, first_where-test,
}
use sts2_the_perfect_defect.Prelude.Evolve.{Evolves-update, Evolves-weaken}
use sts2_the_perfect_defect.Contracts.Runtime.{Runtime}
use sts2_the_perfect_defect.Hub.Schema.{Instant, seconds, status_eq, Job, Db, log_event, job_id}
use sts2_the_perfect_defect.Hub.Jobs.{claim, claim_row, active_job, queued_job}
use sts2_the_perfect_defect.Hub.Lifecycle.Steps.{
  JobStep, JobStep-refl, NoJob, Effect, Effect-refl, CalmStep, busy,
}

none_active : (t : List Job) → first_where active_job t ≡ none → total busy t ≡ 0
unfolding first_where
none_active [] h = refl
none_active (j ∷ t) h = ground (arith, none_active t)

leb-min-min : (a d : ℕ) → leb (min a d) d ≡ true
leb-min-min a d = ground arith

claim_step :
    (j r : Job) (attempt lease : String) (now lease_seconds : ℕ)
    → j ≡ r
    → queued_job j ≡ true
    → JobStep r (claim_row attempt lease now lease_seconds r)
claim_step j r attempt lease now lease_seconds e q =
    ground (
      arith,
      JobStep-refl r,
      leb-min-min (now + seconds lease_seconds) (now + seconds r.max_seconds),
    )

-- What a claim may do: nothing, or start one job where none is active.
pub record Claimed (db db' : Db) : Type 0 where
  pub effect : Effect JobStep NoJob db db'
  pub single : (db' ≡ db) ⊎ ((total busy db.jobs ≡ 0) × (total busy db'.jobs ≤ 1))

pub Effect-calm : (db db' : Db) → Effect CalmStep NoJob db db' → Effect JobStep NoJob db db'
Effect-calm db db' e = record {
  jobs =
      Evolves-weaken CalmStep NoJob JobStep NoJob db.jobs db'.jobs (λ r s h. h.0) (λ r h. h) e.jobs;
  attempts = e.attempts;
  keyed_jobs = e.keyed_jobs;
  keyed_attempts = e.keyed_attempts;
}

pub Claimed-refl : (db : Db) → Claimed db db
Claimed-refl db = record { effect = Effect-calm db db (Effect-refl db); single = inl refl }

module _ (rt : Runtime) where
  pub claim-Claimed :
      (owner : String) (now : Instant) (lease : ℕ) (token attempt : String) (db : Db)
      → IsKeyed job_id db.jobs
      → Ensures
          (λ (p : Option Job × Db). Claimed db p.1)
          (claim rt owner now lease token attempt db)
  unfolding claim log_event
  claim-Claimed owner now lease token attempt db keyed = Ensures-guard _ _ _ λ _.
      Ensures-bind _ _ λ t _.
        Ensures-branch _ _ _ (λ _. Ensures-ok _ (Claimed-refl db))
          λ _.
            Ensures-match _ _ _
              (λ idle.
                Ensures-match _ _ _ (λ _. Ensures-ok _ (Claimed-refl db))
                  λ j first.
                    let row = claim_row attempt (rt.sha256 token) t lease in
                    let found : find job_id j.id db.jobs ≡ some j =
                      find-first_where job_id queued_job db.jobs j keyed first in
                    let step = λ (r : Job) (p : find job_id j.id db.jobs ≡ some r).
                      claim_step j r attempt (rt.sha256 token) t lease (ground arith)
                        (first_where-test queued_job db.jobs j first) in
                    Ensures-ok _ (record {
                      effect = record {
                        jobs =
                            Evolves-update JobStep NoJob job_id j.id row db.jobs JobStep-refl step;
                        attempts = (Effect-refl db).attempts;
                        keyed_jobs = update-IsKeyed job_id j.id row db.jobs (λ r p. refl);
                        keyed_attempts = λ h. h;
                      };
                      single = inr (
                        none_active db.jobs idle,
                        omega (
                          arith,
                          none_active db.jobs idle,
                          total-update job_id busy j.id row db.jobs j found,
                        ),
                      );
                    }))
              (λ _ _. Ensures-ok _ (Claimed-refl db))
