-- ===== src/Hub/Jobs/Operator.antt =====
-- `expire`, `cancel`, `reconcile_stopped` and `pause` of stpd/hub/database.py.
use sts2_the_perfect_defect.Prelude.{
  ℕ, suc, String, Bool, true, false, ◌&&◌, ◌||◌, not, none, some, List, [], ◌∷◌, map, leb, ◌==◌,
  nat_eq, string_eq, option_eq, if◌then◌else◌,
}
use sts2_the_perfect_defect.Prelude.Result.{
  ok, err, ◌>>=◌, ◌>>◌, guard, expect, branch, match_option,
}
use sts2_the_perfect_defect.Prelude.Table.{find, first_where}
use sts2_the_perfect_defect.Boundary.Json.{json_eq}
use sts2_the_perfect_defect.Boundary.Checks.{codes}
use sts2_the_perfect_defect.Hub.Schema.{
  Instant, finite, status_eq, is_settled, Job, log_event, job_id, queued, running,
  submission_unknown, uncertain, cancelling, failed, cancelled,
}
use sts2_the_perfect_defect.Hub.Jobs.Base.{Tx, hub, set_job}
use sts2_the_perfect_defect.Hub.Jobs.Lease.{active_job}

-- `status='running' AND lease_until<=?`, where a null compares as false
abbrev pub lease_elapsed : ℕ → Job → Bool
lease_elapsed t j =
    j.status == running && elim j.lease_until [ none ↦ false | some until ↦ leb until t ]

abbrev pub expire_row : ℕ → Job → Job
expire_row t j = if lease_elapsed t j then record j { status = uncertain } else j

count_elapsed : ℕ → List Job → ℕ
count_elapsed t [] = 0
count_elapsed t (j ∷ js) =
    if lease_elapsed t j then suc (count_elapsed t js) else count_elapsed t js

unfoldable pub expire : Instant → Tx ℕ
unfolding count_elapsed
expire now db = do
  t ← finite now (hub "invalid_lease")
  ok (count_elapsed t db.jobs, record db { jobs = map (expire_row t) db.jobs })

unfoldable pub cancel : String → Tx (Unit {0})
cancel job db = do
  row ← expect (find job_id job db.jobs) (hub "job_not_found")
  branch (is_settled row.status) (ok (tt, db)) (
      ok (
        tt,
        log_event "admin" "cancel_requested" job (
            set_job job
              (λ j. record j { status = if row.status == queued then cancelled else cancelling })
              db),
      ))

-- `str.isspace`
is_space : ℕ → Bool
is_space c =
    (leb 9 c && leb c 13)
    || (leb 28 c && leb c 32)
    || c == 133
    || c == 160
    || c == 5760
    || (leb 8192 c && leb c 8202)
    || c == 8232
    || c == 8233
    || c == 8239
    || c == 8287
    || c == 12288

-- `not evidence.strip()`: every character is white space
is_blank : List ℕ → Bool
unfolding is_space
is_blank [] = true
is_blank (c ∷ cs) = is_space c && is_blank cs

unfoldable pub reconcile_stopped : String → String → Bool → Tx (Unit {0})
unfolding is_blank
reconcile_stopped job evidence requeue db = do
  guard (not (is_blank (codes evidence))) (hub "provider_stop_evidence_required")
  row ← expect (find job_id job db.jobs) (hub "reconciliation_not_applicable")
  guard (row.status == uncertain || (row.status == submission_unknown || row.status == cancelling))
      (hub "reconciliation_not_applicable")
  guard (not requeue) (hub "new_budgeted_job_required")
  ok (
    tt,
    log_event "admin" "provider_stopped" job (
        set_job job
          (λ j. record j {
            status = if row.status == cancelling then cancelled else failed;
            lease_hash = none;
          })
          db),
  )

unfoldable pub pause : Bool → Tx (Unit {0})
pause paused db =
    match_option (first_where active_job db.jobs)
      (ok (tt, log_event "admin" "pause_changed" "hub" (record db { paused = paused })))
      (λ busy.
        branch paused
          (ok (tt, log_event "admin" "pause_changed" "hub" (record db { paused = paused })))
          (err (hub "reconcile_external_jobs_before_unpause")))
