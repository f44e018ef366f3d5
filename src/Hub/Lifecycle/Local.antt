-- ===== src/Hub/Lifecycle/Local.antt =====
-- The effect of each job operation but `claim`: every row takes a step of the life of a job, and
-- no job is started.
use sts2_the_perfect_defect.Prelude.{
  ℕ, ◌≡◌, refl, String, Bool, true, false, none, some, [], ◌∷◌, ◌||◌, arith, ◌==◌, nat_eq,
  if◌then◌else◌,
}
use sts2_the_perfect_defect.Prelude.Result.{
  ok, ◌>>=◌, Ensures, Ensures-ok, Ensures-err, Ensures-guard, Ensures-branch, Ensures-bind,
  Ensures-match, Ensures-expect,
}
use sts2_the_perfect_defect.Prelude.Table.{find}
use sts2_the_perfect_defect.Prelude.Keyed.{map-IsKeyed, append-IsKeyed}
use sts2_the_perfect_defect.Prelude.Evolve.{Evolves-map, Evolves-weaken, Evolves-append}
use sts2_the_perfect_defect.Boundary.Json.{Json}
use sts2_the_perfect_defect.Contracts.Runtime.{Runtime}
use sts2_the_perfect_defect.Hub.Schema.{
  Instant, Job, Db, job_id, queued, running, uncertain, submission_unknown, failed, is_settled,
  cancelled, cancelling, status_eq,
}
use sts2_the_perfect_defect.Prelude.{leb, min, ◌+◌}
use sts2_the_perfect_defect.Hub.Schema.{seconds}
use sts2_the_perfect_defect.Hub.Jobs.{
  live, enqueue, heartbeat, submitted, submission_is_unknown, complete, expire, expire_row,
  insert_job, cancel, reconcile_stopped, pause,
}
use sts2_the_perfect_defect.Hub.Lifecycle.Steps.{
  NewJob, NoJob, Effect, Effect-refl, CalmStep, CalmStep-refl, JobStep-refl,
}
use sts2_the_perfect_defect.Hub.Lifecycle.Effects.{Calm, Effect-log, Effect-job}

leb-min : (a d : ℕ) → leb (min a d) d ≡ true
leb-min a d = ground arith

heartbeat_step :
    (row r : Job) (t lease d : ℕ)
    → row ≡ r
    → row.deadline ≡ some d
    → CalmStep r (record r { lease_until = some (min (t + seconds lease) d) })
heartbeat_step row r t lease d e h = ground (arith, JobStep-refl r, leb-min (t + seconds lease) d)

cancel_step :
    (row r : Job)
    → row ≡ r
    → is_settled row.status ≡ false
    → CalmStep r (record r { status = if row.status == queued then cancelled else cancelling })
cancel_step row r e h = ground arith

module _ (rt : Runtime) where
  -- The row of a live lease is the job's row, and it runs.
  pub live-running :
      (db : Db) (job token : String) (now : Instant) (row : Job)
      → live rt db job token now ≡ ok row
      → (find job_id job db.jobs ≡ some row) × (row.status ≡ running)
  unfolding live ◌>>=◌
  live-running db job token now row h = ground arith

  pub heartbeat-Calm :
      (job token : String) (now : Instant) (lease : ℕ) (db : Db)
      → Calm db (heartbeat rt job token now lease db)
  unfolding heartbeat
  heartbeat-Calm job token now lease db = Ensures-guard _ _ _ λ _. Ensures-bind _ _ λ t _.
      Ensures-bind _ _ λ row h. Ensures-expect _ _ _ λ d e. Ensures-ok _ (
        Effect-job job _ db λ r found.
          heartbeat_step row r t lease d (ground (arith, live-running db job token now row h)) e)

  pub submitted-Calm :
      (job token reference : String) (now : Instant) (db : Db)
      → Calm db (submitted rt job token reference now db)
  unfolding submitted
  submitted-Calm job token reference now db = Ensures-guard _ _ _ λ _. Ensures-bind _ _ λ row h.
      Ensures-guard _ _ _
        λ _. Ensures-ok _ (Effect-job job _ db λ r found. ground (arith, JobStep-refl r))

  pub submission_is_unknown-Calm :
      (job token : String) (now : Instant) (db : Db)
      → Calm db (submission_is_unknown rt job token now db)
  unfolding submission_is_unknown
  submission_is_unknown-Calm job token now db = Ensures-bind _ _ λ row h. Ensures-ok _ (
      Effect-log _ _ _ db _
        (Effect-job job _ db λ r found. ground (arith, live-running db job token now row h)))

  pub complete-Calm :
      (job token : String) (result : Json) (now : Instant) (db : Db)
      → Calm db (complete rt job token result now db)
  unfolding complete
  complete-Calm job token result now db =
      Ensures-match _ _ _
        (λ _. Ensures-bind _ _ λ row h. Ensures-ok _ (
          Effect-log _ _ _ db _
            (Effect-job job _ db λ r found. ground (arith, live-running db job token now row h))))
        (λ row _. Ensures-branch _ _ _ (λ _. Ensures-ok _ (Effect-refl db)) (λ _. Ensures-err _))

pub cancel-Calm : (job : String) (db : Db) → Calm db (cancel job db)
unfolding cancel
cancel-Calm job db = Ensures-expect _ _ _ λ row h.
    Ensures-branch _ _ _ (λ _. Ensures-ok _ (Effect-refl db))
      λ open_. Ensures-ok _ (
        Effect-log _ _ _ db _
          (Effect-job job _ db λ r found. cancel_step row r (ground arith) open_))

reconcile_step :
    (row r : Job)
    → row ≡ r
    → (row.status == uncertain || (row.status == submission_unknown || row.status == cancelling))
      ≡ true
    → CalmStep r (record r {
      status = if row.status == cancelling then cancelled else failed;
      lease_hash = none;
    })
reconcile_step row r e h = ground arith

pub reconcile_stopped-Calm :
    (job evidence : String) (requeue : Bool) (db : Db)
    → Calm db (reconcile_stopped job evidence requeue db)
unfolding reconcile_stopped
reconcile_stopped-Calm job evidence requeue db = Ensures-guard _ _ _ λ _.
    Ensures-expect _ _ _ λ row h. Ensures-guard _ _ _ λ stopped. Ensures-guard _ _ _ λ _.
      Ensures-ok _ (
        Effect-log _ _ _ db _
          (Effect-job job _ db λ r found. reconcile_step row r (ground arith) stopped))

Effect-paused : (b : Bool) (db : Db) → Effect CalmStep NoJob db (record db { paused = b })
Effect-paused b db = record {
  jobs = (Effect-refl db).jobs;
  attempts = (Effect-refl db).attempts;
  keyed_jobs = λ h. h;
  keyed_attempts = λ h. h;
}

pub pause-Calm : (paused : Bool) (db : Db) → Calm db (pause paused db)
unfolding pause
pause-Calm paused db =
    Ensures-match _ _ _ (λ _. Ensures-ok _ (Effect-log _ _ _ db _ (Effect-paused paused db)))
      (λ j _.
        Ensures-branch _ _ _ (λ _. Ensures-ok _ (Effect-log _ _ _ db _ (Effect-paused paused db)))
          (λ _. Ensures-err _))

expire_step : (t : ℕ) (j : Job) → CalmStep j (expire_row t j)
expire_step t j = ground (arith, JobStep-refl j)

pub expire-Calm : (now : Instant) (db : Db) → Calm db (expire now db)
unfolding expire
expire-Calm now db = Ensures-bind _ _ λ t _. Ensures-ok _ (record {
  jobs = Evolves-map CalmStep NoJob (expire_row t) db.jobs (expire_step t);
  attempts = (Effect-refl db).attempts;
  keyed_jobs = map-IsKeyed job_id (expire_row t) db.jobs (λ r. (expire_step t r).0.id);
  keyed_attempts = λ h. h;
})

pub Effect-weaken : (db db' : Db) → Effect CalmStep NoJob db db' → Effect CalmStep NewJob db db'
Effect-weaken db db' e = record {
  jobs =
      Evolves-weaken CalmStep NoJob CalmStep NewJob db.jobs db'.jobs (λ r s h. h) (λ r h. absurd h)
        e.jobs;
  attempts = e.attempts;
  keyed_jobs = e.keyed_jobs;
  keyed_attempts = e.keyed_attempts;
}

-- A new row is queued, and its key was free.
insert_job-Calm :
    (j : Job) (db : Db) → NewJob j → Ensures (Effect CalmStep NewJob db) (insert_job j db)
unfolding insert_job
insert_job-Calm j db new =
    Ensures-match _ _ _
      (λ e. Ensures-ok _ (record {
        jobs = Evolves-append CalmStep NewJob db.jobs (j ∷ []) CalmStep-refl (new, tt);
        attempts = (Effect-refl db).attempts;
        keyed_jobs = append-IsKeyed job_id db.jobs j e;
        keyed_attempts = λ h. h;
      }))
      (λ old _. Ensures-err _)

pub enqueue-Calm :
    (kind input key : String) (seconds units limit : ℕ) (options : Json) (fresh : String) (db : Db)
    → Ensures
        (λ (p : String × Db). Effect CalmStep NewJob db p.1)
        (enqueue kind input key seconds units limit options fresh db)
unfolding enqueue
enqueue-Calm kind input key seconds units limit options fresh db = Ensures-bind _ _ λ _ _.
    Ensures-match _ _ _
      (λ _. Ensures-guard _ _ _ λ _. Ensures-bind _ _ λ db' inserted.
        Ensures-ok _
          (Effect-log _ _ _ db db' ((insert_job-Calm _ db (refl, refl)).holds db' inserted)))
      (λ old _.
        Ensures-branch _ _ _ (λ _. Ensures-ok _ (Effect-weaken db db (Effect-refl db)))
          (λ _. Ensures-err _))
