-- ===== src/Hub/Runs/Invariant.antt =====
-- One call as a change of the tables, whatever the call, and the invariant that it keeps.
use sts2_the_perfect_defect.Prelude.{
  ℕ, ◌≤◌, ◌≡◌, refl, true, List, [], ◌∷◌, arith, total, All, inl, inr, ◌==◌, ◌∙◌, max,
}
use sts2_the_perfect_defect.Prelude.Result.{Result, ok, err, Ensures}
use sts2_the_perfect_defect.Prelude.Keyed.{IsKeyed}
use sts2_the_perfect_defect.Prelude.Evolve.{
  Evolves, Evolves-refl, Evolves-trans, Evolves-weaken, total-Evolves, All-Evolves,
}
use sts2_the_perfect_defect.Contracts.Runtime.{Runtime}
use sts2_the_perfect_defect.Hub.Schema.{Job, Db, status_eq, job_id, attempt_job, queued}
use sts2_the_perfect_defect.Hub.Calls.{
  Call, committed, perform, perform_all, enqueue, claim, heartbeat, submitted,
  submission_is_unknown, complete, expire, cancel, reconcile_stopped, pause, recover_compute,
  prepare_compute, bind_compute_handle, compute_uncertain, fail_before_compute, accept_compute,
  begin_compute_cancel, record_compute_cancel,
}
use sts2_the_perfect_defect.Hub.Lifecycle.{
  JobStep, JobStep-refl, JobStep-trans, AttemptStep, AttemptStep-refl, AttemptStep-trans, NewJob,
  NoJob, AnyAttempt, Effect, CalmStep, busy, has_lease, Claimed, Claimed-refl, Effect-weaken,
  claim-Claimed, enqueue-Calm, heartbeat-Calm, submitted-Calm, submission_is_unknown-Calm,
  complete-Calm, expire-Calm, cancel-Calm, reconcile_stopped-Calm, pause-Calm, recover_compute-Calm,
  prepare_compute-Calm, bind_compute_handle-Calm, compute_uncertain-Calm, fail_before_compute-Calm,
  accept_compute-Calm, begin_compute_cancel-Calm, record_compute_cancel-Calm, Effect-refl,
  first_queued, units, enqueue-units, Evolves-units,
}

-- A job in the queue has never been started, and no job is started twice.
abbrev pub IsCounted : Job → Type 0
IsCounted j = ((j.status == queued) ≡ true → j.fence ≡ 0) × (j.fence ≤ 1)

abbrev pub IsLeased : Job → Type 0
IsLeased j = has_lease j ≡ true

pub record IsSound (db : Db) : Type 0 where
  pub keyed_jobs : IsKeyed job_id db.jobs
  pub keyed_attempts : IsKeyed attempt_job db.attempts
  pub single : total busy db.jobs ≤ 1
  pub counted : All IsCounted db.jobs
  pub leased : All IsLeased db.jobs

-- `allowance` is what the call may let the reservations grow to.
pub record Change (allowance : ℕ) (db db' : Db) : Type 0 where
  pub jobs : Evolves JobStep NewJob db.jobs db'.jobs
  pub attempts : Evolves AttemptStep AnyAttempt db.attempts db'.attempts
  pub keyed_jobs : IsKeyed job_id db.jobs → IsKeyed job_id db'.jobs
  pub keyed_attempts : IsKeyed attempt_job db.attempts → IsKeyed attempt_job db'.attempts
  pub single : total busy db.jobs ≤ 1 → total busy db'.jobs ≤ 1
  pub budget : units db' ≤ max (units db) allowance

new_idle : (j : Job) → NewJob j → busy j ≡ 0
new_idle j h = ground arith

Change-new :
    (limit : ℕ) (db db' : Db)
    → Effect CalmStep NewJob db db'
    → units db' ≤ max (units db) limit
    → Change limit db db'
Change-new limit db db' e within = record {
  jobs =
      Evolves-weaken CalmStep NewJob JobStep NewJob db.jobs db'.jobs (λ r s h. h.0) (λ r h. h)
        e.jobs;
  attempts = e.attempts;
  keyed_jobs = e.keyed_jobs;
  keyed_attempts = e.keyed_attempts;
  single = λ h.
      omega
        (arith, total-Evolves CalmStep NewJob busy db.jobs db'.jobs (λ r s p. p.1) new_idle e.jobs);
  budget = within;
}

jobs_only : (db db' : Db) → Effect CalmStep NoJob db db' → Evolves JobStep NoJob db.jobs db'.jobs
jobs_only db db' e =
    Evolves-weaken CalmStep NoJob JobStep NoJob db.jobs db'.jobs (λ r s h. h.0) (λ r h. h) e.jobs

pub Change-calm : (db db' : Db) → Effect CalmStep NoJob db db' → Change 0 db db'
Change-calm db db' e =
    Change-new 0 db db' (Effect-weaken db db' e)
      (omega (arith, Evolves-units db db' (jobs_only db db' e)))

pub Change-claim : (db db' : Db) → Claimed db db' → Change 0 db db'
Change-claim db db' c = record {
  jobs =
      Evolves-weaken JobStep NoJob JobStep NewJob db.jobs db'.jobs (λ r s h. h) (λ r h. absurd h)
        c.effect.jobs;
  attempts = c.effect.attempts;
  keyed_jobs = c.effect.keyed_jobs;
  keyed_attempts = c.effect.keyed_attempts;
  single = λ h. elim c.single [ inl e ↦ rw e h | inr p ↦ p.1 ];
  budget = omega (arith, Evolves-units db db' c.effect.jobs);
}

pub committed-Ensures :
    {A : Type 0} (P : Db → Type 0) (r : Result (A × Db)) (db : Db)
    → P db
    → Ensures (λ (p : A × Db). P p.1) r
    → P (committed r db)
committed-Ensures P (ok (a, db')) db base e = e.holds (a, db') refl
committed-Ensures P (err x) db base e = base

-- What a call may reserve up to: the limit of an `enqueue`.
abbrev pub allowance : Call → ℕ
allowance (enqueue kind input key seconds n limit options fresh) = limit
allowance _ = 0

module _ (rt : Runtime) where
  pub calm :
      {A : Type 0} (r : Result (A × Db)) (db : Db)
      → Ensures (λ (p : A × Db). Effect CalmStep NoJob db p.1) r
      → Change 0 db (committed r db)
  calm r db e =
      Change-calm db _ (committed-Ensures (Effect CalmStep NoJob db) r db (Effect-refl db) e)

  -- Every call, whether it returns or raises, is a change of the tables.
  pub perform-Change :
      (c : Call) (db : Db) → IsKeyed job_id db.jobs → Change (allowance c) db (perform rt c db)
  unfolding perform
  perform-Change (enqueue k i q s u l o f) db h =
      Change-new l db _
        (committed-Ensures (Effect CalmStep NewJob db) _ db (Effect-weaken db db (Effect-refl db))
          (enqueue-Calm k i q s u l o f db))
        (committed-Ensures (λ db'. units db' ≤ max (units db) l) _ db (omega arith)
          (enqueue-units k i q s u l o f db))
  perform-Change (claim w n l t a) db h =
      Change-claim db _
        (committed-Ensures (Claimed db) _ db (Claimed-refl db) (claim-Claimed rt w n l t a db h))
  perform-Change (heartbeat j t n l) db h = calm _ db (heartbeat-Calm rt j t n l db)
  perform-Change (submitted j t r n) db h = calm _ db (submitted-Calm rt j t r n db)
  perform-Change (submission_is_unknown j t n) db h =
      calm _ db (submission_is_unknown-Calm rt j t n db)
  perform-Change (complete j t r n) db h = calm _ db (complete-Calm rt j t r n db)
  perform-Change (expire n) db h = calm _ db (expire-Calm n db)
  perform-Change (cancel j) db h = calm _ db (cancel-Calm j db)
  perform-Change (reconcile_stopped j e r) db h = calm _ db (reconcile_stopped-Calm j e r db)
  perform-Change (pause b) db h = calm _ db (pause-Calm b db)
  perform-Change (recover_compute j a f n t) db h = calm _ db (recover_compute-Calm rt j a f n t db)
  perform-Change (prepare_compute j t r g n) db h = calm _ db (prepare_compute-Calm rt j t r g n db)
  perform-Change (bind_compute_handle j t a f d) db h =
      calm _ db (bind_compute_handle-Calm rt j t a f d db)
  perform-Change (compute_uncertain j t a f c) db h =
      calm _ db (compute_uncertain-Calm rt j t a f c db)
  perform-Change (fail_before_compute j t c n) db h =
      calm _ db (fail_before_compute-Calm rt j t c n db)
  perform-Change (accept_compute j t a f r c) db h =
      calm _ db (accept_compute-Calm rt j t a f r c db)
  perform-Change (begin_compute_cancel j t a f) db h =
      calm _ db (begin_compute_cancel-Calm rt j t a f db)
  perform-Change (record_compute_cancel j t a f b) db h =
      calm _ db (record_compute_cancel-Calm rt j t a f b db)

queued_first : (j k : Job) → JobStep j k → (k.status == queued) ≡ true → (j.status == queued) ≡ true
queued_first j k p h = first_queued j.status k.status p.moves h

pub IsCounted-step : (j k : Job) → IsCounted j → JobStep j k → IsCounted k
IsCounted-step j k h p = elim p.fence_step [
  | inl e ↦ (λ q. e ∙ h.0 (queued_first j k p q), rw e h.1)
  | inr s ↦ (λ q. absurd (cc (s.1, q)), omega (arith, h.0 s.0, s.2))
]

pub Change-IsSound : (limit : ℕ) (db db' : Db) → IsSound db → Change limit db db' → IsSound db'
Change-IsSound limit db db' s c = record {
  keyed_jobs = c.keyed_jobs s.keyed_jobs;
  keyed_attempts = c.keyed_attempts s.keyed_attempts;
  single = c.single s.single;
  counted =
      All-Evolves JobStep NewJob IsCounted db.jobs db'.jobs IsCounted-step (λ r n. ground arith)
        s.counted c.jobs;
  leased =
      All-Evolves JobStep NewJob IsLeased db.jobs db'.jobs (λ j k h p. p.leased h)
        (λ r n. ground arith) s.leased c.jobs;
}

module _ (rt : Runtime) where
  -- Whatever is called, in whatever order, the invariant holds.
  pub perform_all-IsSound : (cs : List Call) (db : Db) → IsSound db → IsSound (perform_all rt cs db)
  unfolding perform_all
  perform_all-IsSound [] db s = s
  perform_all-IsSound (c ∷ cs) db s =
      perform_all-IsSound cs (perform rt c db)
        (Change-IsSound (allowance c) db (perform rt c db) s (perform-Change rt c db s.keyed_jobs))

  -- Over a run every row still takes one step, the steps of its calls joined.
  pub perform_all-jobs :
      (cs : List Call) (db : Db)
      → IsSound db
      → Evolves JobStep IsCounted db.jobs (perform_all rt cs db).jobs
  unfolding perform_all
  perform_all-jobs [] db s = Evolves-refl JobStep IsCounted db.jobs JobStep-refl
  perform_all-jobs (c ∷ cs) db s =
      let change = perform-Change rt c db s.keyed_jobs in
      let first =
        Evolves-weaken JobStep NewJob JobStep IsCounted db.jobs (perform rt c db).jobs (λ r u h. h)
          (λ r n. ground arith) change.jobs in
      Evolves-trans JobStep IsCounted db.jobs (perform rt c db).jobs _ JobStep-trans IsCounted-step
        first (perform_all-jobs cs (perform rt c db) (Change-IsSound (allowance c) db _ s change))

  pub perform_all-attempts :
      (cs : List Call) (db : Db)
      → IsSound db
      → Evolves AttemptStep AnyAttempt db.attempts (perform_all rt cs db).attempts
  unfolding perform_all
  perform_all-attempts [] db s = Evolves-refl AttemptStep AnyAttempt db.attempts AttemptStep-refl
  perform_all-attempts (c ∷ cs) db s =
      let change = perform-Change rt c db s.keyed_jobs in
      Evolves-trans AttemptStep AnyAttempt db.attempts (perform rt c db).attempts _
        AttemptStep-trans (λ r u h p. tt) change.attempts
        (perform_all-attempts cs (perform rt c db) (Change-IsSound (allowance c) db _ s change))

  -- While every `enqueue` is given a limit of at most `limit`, the reservations stay within it.
  pub budget_kept :
      (limit : ℕ) (cs : List Call) (db : Db)
      → IsSound db
      → All (λ c. allowance c ≤ limit) cs
      → units db ≤ limit
      → units (perform_all rt cs db) ≤ limit
  unfolding perform_all
  budget_kept limit [] db s within start = start
  budget_kept limit (c ∷ cs) db s within start =
      let change = perform-Change rt c db s.keyed_jobs in
      budget_kept limit cs (perform rt c db) (Change-IsSound (allowance c) db _ s change) within.1
        (omega (arith, change.budget, within.0))
