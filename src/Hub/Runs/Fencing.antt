-- ===== src/Hub/Runs/Fencing.antt =====
-- The secret of a lease: who may act for an attempt, and when.
use sts2_the_perfect_defect.Prelude.{
  ℕ, ◌+◌, ◌<◌, ◌≡◌, ◌≢◌, refl, String, Option, none, some, arith, min, string_eq, nat_eq, eq_iff,
}
use sts2_the_perfect_defect.Prelude.Result.{
  ok, err, ◌>>=◌, Ensures, Ensures-ok, Ensures-guard, Ensures-branch, Ensures-bind, Ensures-match,
  Ensures-expect,
}
use sts2_the_perfect_defect.Prelude.Table.{find, find-update_self}
use sts2_the_perfect_defect.Prelude.Keyed.{find-first_where}
use sts2_the_perfect_defect.Boundary.Json.{json_eq}
use sts2_the_perfect_defect.Contracts.Runtime.{Runtime}
use sts2_the_perfect_defect.Hub.Schema.{
  Instant, at, seconds, Status, status_eq, Job, Db, job_id, log_event, running,
}
use sts2_the_perfect_defect.Hub.Jobs.{hub, live, claim, claim_row, queued_job}
use sts2_the_perfect_defect.Hub.Compute.{compute_fenced, recover_compute, recovered_status}
use sts2_the_perfect_defect.Hub.Runs.Invariant.{IsSound}

-- A row whose lease is held by a hash other than that of `token`.
abbrev LockedTo : String → Option Job → Type 0
LockedTo hash o =
    (r : Job) × (o ≡ some r)
    × (r.lease_hash ≡ some hash)
    × (r.status ≡ running → r.lease_until ≢ none)

module _ (rt : Runtime) where
  recovered_running :
      (s t : Status) (until : Option ℕ) (now : ℕ)
      → recovered_status s until now ≡ ok t
      → t ≡ running
      → until ≢ none
  recovered_running s t until now h e = ground arith

  recover_locks :
      (job attempt : String) (fence : ℕ) (now : Instant) (token : String) (db : Db)
      → Ensures
          (λ (p : Job × Db). LockedTo (rt.sha256 token) (find job_id job p.1.jobs))
          (recover_compute rt job attempt fence now token db)
  unfolding recover_compute log_event
  recover_locks job attempt fence now token db = Ensures-bind _ _ λ t _.
      Ensures-expect _ _ _ λ row found. Ensures-guard _ _ _ λ _. Ensures-bind _ _ λ status e.
        Ensures-ok _ (
          record row { lease_hash = some (rt.sha256 token); status = status },
          find-update_self job_id job
              (λ j. record j { lease_hash = some (rt.sha256 token); status = status }) db.jobs row
              (λ r. refl) found,
          refl,
          recovered_running row.status status row.lease_until t e,
        )

  locked_fenced :
      (db : Db) (job old attempt : String) (fence : ℕ) (hash : String)
      → LockedTo hash (find job_id job db.jobs)
      → rt.sha256 old ≢ hash
      → compute_fenced rt db job old attempt fence ≡ err (hub "stale_attempt")
  unfolding compute_fenced ◌>>=◌
  locked_fenced db job old attempt fence hash (r, found, lock, _) other =
      ground (arith, eq_iff hash (rt.sha256 old))

  locked_live :
      (db : Db) (job old : String) (now : Instant) (hash : String)
      → LockedTo hash (find job_id job db.jobs)
      → rt.sha256 old ≢ hash
      → live rt db job old now ≡ err (hub "stale_attempt")
  unfolding live ◌>>=◌
  locked_live db job old now hash (r, found, lock, leased) other =
      ground (arith, eq_iff hash (rt.sha256 old))

  -- After a recovery the old secret is of no use, for any attempt and fence and at any time.
  pub recover_fences_out :
      (job attempt : String) (fence : ℕ) (now : Instant) (token : String) (db : Db) (row : Job)
      (db' : Db) (old attempt' : String) (fence' : ℕ) (now' : Instant)
      → recover_compute rt job attempt fence now token db ≡ ok (row, db')
      → rt.sha256 old ≢ rt.sha256 token
      → (compute_fenced rt db' job old attempt' fence' ≡ err (hub "stale_attempt"))
        × (live rt db' job old now' ≡ err (hub "stale_attempt"))
  recover_fences_out job attempt fence now token db row db' old attempt' fence' now' h other =
      let locked = (recover_locks job attempt fence now token db).holds (row, db') h in
      (
        locked_fenced db' job old attempt' fence' (rt.sha256 token) locked other,
        locked_live db' job old now' (rt.sha256 token) locked other,
      )

  -- What a claim hands out: a running row, whose lease its secret holds until the lease ends.
  record HandedOut (token : String) (t lease : ℕ) (row : Job) (db : Db) : Type 0 where
    found : find job_id row.id db.jobs ≡ some row
    status : row.status ≡ running
    lock : row.lease_hash ≡ some (rt.sha256 token)
    until : row.lease_until ≡ some (min (t + seconds lease) (t + seconds row.max_seconds))

  abbrev HandsOut : String → ℕ → ℕ → Option Job × Db → Type 0
  HandsOut token t lease (none, db) = Unit
  HandsOut token t lease (some row, db) = HandedOut token t lease row db

  claim-HandsOut :
      (owner : String) (t lease : ℕ) (token attempt : String) (db : Db)
      → IsSound db
      → Ensures (HandsOut token t lease) (claim rt owner (at t) lease token attempt db)
  unfolding claim log_event
  claim-HandsOut owner t lease token attempt db sound = Ensures-guard _ _ _ λ valid.
      Ensures-bind _ _ λ t' e.
        Ensures-branch _ _ _ (λ _. Ensures-ok _ tt)
          λ _.
            Ensures-match _ _ _
              (λ _.
                Ensures-match _ _ _ (λ _. Ensures-ok _ tt)
                  λ j first.
                    let row = claim_row attempt (rt.sha256 token) t' lease in
                    let found : find job_id j.id db.jobs ≡ some j =
                      find-first_where job_id queued_job db.jobs j sound.keyed_jobs first in
                    let same : t ≡ t' = ground arith in
                    Ensures-ok _ (record {
                      found = find-update_self job_id j.id row db.jobs j (λ r. refl) found;
                      status = refl;
                      lock = refl;
                      until = rw same refl;
                    }))
              (λ _ _. Ensures-ok _ tt)

  live_of_HandedOut :
      (token : String) (t lease u : ℕ) (row : Job) (db : Db)
      → HandedOut token t lease row db
      → u < min (t + seconds lease) (t + seconds row.max_seconds)
      → live rt db row.id token (at u) ≡ ok row
  unfolding live ◌>>=◌
  live_of_HandedOut token t lease u row db h within =
      ground (arith, h, eq_iff (rt.sha256 token) (rt.sha256 token))

  -- The secret of a claim is live from the claim on, up to the end of the lease and of the budget
  -- of the job, whichever comes first.
  pub claim-live :
      (owner : String) (t lease : ℕ) (token attempt : String) (db db' : Db) (row : Job) (u : ℕ)
      → IsSound db
      → claim rt owner (at t) lease token attempt db ≡ ok (some row, db')
      → u < t + seconds lease
      → u < t + seconds row.max_seconds
      → live rt db' row.id token (at u) ≡ ok row
  claim-live owner t lease token attempt db db' row u sound h in_lease in_budget =
      live_of_HandedOut token t lease u row db'
        ((claim-HandsOut owner t lease token attempt db sound).holds (some row, db') h)
        (omega arith)
