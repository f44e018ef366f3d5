-- ===== src/Hub/Jobs/Lease.antt =====
-- `claim`, `_live`, `heartbeat`, `submitted`, `submission_unknown` and `complete` of
-- stpd/hub/database.py: what the holder of a lease may do.
use sts2_the_perfect_defect.Prelude.{
  ℕ, ◌+◌, min, String, Bool, ◌&&◌, ◌||◌, Option, none, some, ltb, leb, length, ◌==◌, nat_eq,
  string_eq, option_eq, if◌then◌else◌,
}
use sts2_the_perfect_defect.Prelude.Result.{
  Result, ok, err, type_error, ◌>>=◌, ◌>>◌, guard, expect, branch, match_option,
}
use sts2_the_perfect_defect.Prelude.Table.{find, first_where}
use sts2_the_perfect_defect.Boundary.Json.{Json, json_eq}
use sts2_the_perfect_defect.Boundary.Checks.{codes}
use sts2_the_perfect_defect.Contracts.Runtime.{Runtime}
use sts2_the_perfect_defect.Hub.Schema.{
  Instant, seconds, finite, status_eq, is_active, Job, Db, log_event, job_id, queued, running,
  submission_unknown, completed,
}
use sts2_the_perfect_defect.Hub.Jobs.Base.{Tx, hub, set_job}

abbrev pub active_job : Job → Bool
active_job j = is_active j.status

abbrev pub queued_job : Job → Bool
queued_job j = j.status == queued

abbrev valid_lease : ℕ → Bool
valid_lease lease_seconds = ltb 0 lease_seconds && leb lease_seconds 600

-- The row that `claim` leaves: the next fence, a new attempt and a lease of the new token.
abbrev pub claim_row : String → String → ℕ → ℕ → Job → Job
claim_row attempt lease now lease_seconds j = record j {
  status = running;
  fence = j.fence + 1;
  attempt_id = some attempt;
  lease_hash = some lease;
  lease_until = some (min (now + seconds lease_seconds) (now + seconds j.max_seconds));
  deadline = some (now + seconds j.max_seconds);
  provider_ref = none;
}

-- `row is not None and row["status"] == "completed"`
unfoldable pub completed_row : Option Job → Option Job
completed_row none = none
completed_row (some row) = if row.status == completed then some row else none

module _ (rt : Runtime) where
  -- `token` and `attempt` are `secrets.token_urlsafe(32)` and `secrets.token_hex(16)`. The reply is
  -- the claimed row; the caller pairs it with `token` and drops the hash.
  unfoldable pub claim : String → Instant → ℕ → String → String → Tx (Option Job)
  claim owner now lease_seconds token attempt db = do
    guard (valid_lease lease_seconds) (hub "invalid_lease")
    t ← finite now (hub "invalid_lease")
    branch db.paused (ok (none, db)) (
        match_option (first_where active_job db.jobs)
          (match_option (first_where queued_job db.jobs) (ok (none, db)) (λ j.
            let row = claim_row attempt (rt.sha256 token) t lease_seconds in
            ok (some (row j), log_event owner "job_claimed" j.id (set_job j.id row db))))
          (λ busy. ok (none, db)))

  -- `secrets.compare_digest(row["lease_hash"] or "", token_hash(token))`
  abbrev pub holds_lease : Job → String → Bool
  holds_lease j token = elim j.lease_hash [
    | none ↦ "" == rt.sha256 token
    | some h ↦ h == rt.sha256 token
  ]

  -- `_live`
  unfoldable pub live : Db → String → String → Instant → Result Job
  live db job token now = do
    t ← finite now (hub "stale_attempt")
    row ← expect (find job_id job db.jobs) (hub "stale_attempt")
    guard (row.status == running) (hub "stale_attempt")
    until ← expect row.lease_until type_error
    guard (ltb t until) (hub "stale_attempt")
    guard (holds_lease row token) (hub "stale_attempt")
    ok row

  unfoldable pub heartbeat : String → String → Instant → ℕ → Tx (Unit {0})
  heartbeat job token now lease_seconds db = do
    guard (valid_lease lease_seconds) (hub "invalid_lease")
    t ← finite now (hub "invalid_lease")
    row ← live db job token now
    deadline ← expect row.deadline type_error
    ok (
      tt,
      set_job job (λ j. record j { lease_until = some (min (t + seconds lease_seconds) deadline) })
          db,
    )

  unfoldable pub submitted : String → String → String → Instant → Tx (Unit {0})
  submitted job token reference now db = do
    guard (ltb 0 (length (codes reference)) && leb (length (codes reference)) 512)
        (hub "invalid_provider_reference")
    row ← live db job token now
    guard (row.provider_ref == none || row.provider_ref == some reference)
        (hub "provider_reference_conflict")
    ok (tt, set_job job (λ j. record j { provider_ref = some reference }) db)

  unfoldable pub submission_is_unknown : String → String → Instant → Tx (Unit {0})
  submission_is_unknown job token now db = do
    row ← live db job token now
    ok (
      tt,
      log_event "scheduler" "submission_unknown" job
          (set_job job (λ j. record j { status = submission_unknown }) db),
    )

  unfoldable pub complete : String → String → Json → Instant → Tx (Unit {0})
  complete job token result now db =
      match_option (completed_row (find job_id job db.jobs))
        (do
          row ← live db job token now
          ok (
            tt,
            log_event "scheduler" "job_completed" job
                (set_job job (λ j. record j { status = completed; result = some result }) db),
          ))
        (λ row.
          branch (row.result == some result && holds_lease row token) (ok (tt, db))
            (err (hub "completion_conflict")))
