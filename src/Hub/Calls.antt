-- ===== src/Hub/Calls.antt =====
-- One call of `Operations` on the jobs and attempts, and what it leaves in the database: what it
-- commits, or what was there before if it raises.
use sts2_the_perfect_defect.Prelude.{ℕ, String, Bool, List, [], ◌∷◌}
use sts2_the_perfect_defect.Prelude.Result.{Result, ok, err}
use sts2_the_perfect_defect.Boundary.Json.{Json}
use sts2_the_perfect_defect.Contracts.Runtime.{Runtime}
use sts2_the_perfect_defect.Hub.Schema.{Instant, Db}
use sts2_the_perfect_defect.Hub.Jobs
use sts2_the_perfect_defect.Hub.Compute

-- A constructor for each operation, with its arguments and the secrets that it draws.
pub data Call : Type 0 where
  enqueue : String → String → String → ℕ → ℕ → ℕ → Json → String → Call
  claim : String → Instant → ℕ → String → String → Call
  heartbeat : String → String → Instant → ℕ → Call
  submitted : String → String → String → Instant → Call
  submission_is_unknown : String → String → Instant → Call
  complete : String → String → Json → Instant → Call
  expire : Instant → Call
  cancel : String → Call
  reconcile_stopped : String → String → Bool → Call
  pause : Bool → Call
  recover_compute : String → String → ℕ → Instant → String → Call
  prepare_compute : String → String → Json → String → Instant → Call
  bind_compute_handle : String → String → String → ℕ → Json → Call
  compute_uncertain : String → String → String → ℕ → String → Call
  fail_before_compute : String → String → String → Instant → Call
  accept_compute : String → String → String → ℕ → Json → Bool → Call
  begin_compute_cancel : String → String → String → ℕ → Call
  record_compute_cancel : String → String → String → ℕ → Bool → Call

-- `transaction()`: commit, or roll back on an exception.
abbrev pub committed : {A : Type 0} → Result (A × Db) → Db → Db
committed (ok (a, db')) db = db'
committed (err e) db = db

module _ (rt : Runtime) where
  unfoldable pub perform : Call → Db → Db
  perform (enqueue kind input key seconds units limit options fresh) db =
      committed (Jobs.enqueue kind input key seconds units limit options fresh db) db
  perform (claim owner now lease token attempt) db =
      committed (Jobs.claim rt owner now lease token attempt db) db
  perform (heartbeat job token now lease) db =
      committed (Jobs.heartbeat rt job token now lease db) db
  perform (submitted job token reference now) db =
      committed (Jobs.submitted rt job token reference now db) db
  perform (submission_is_unknown job token now) db =
      committed (Jobs.submission_is_unknown rt job token now db) db
  perform (complete job token result now) db =
      committed (Jobs.complete rt job token result now db) db
  perform (expire now) db = committed (Jobs.expire now db) db
  perform (cancel job) db = committed (Jobs.cancel job db) db
  perform (reconcile_stopped job evidence requeue) db =
      committed (Jobs.reconcile_stopped job evidence requeue db) db
  perform (pause paused) db = committed (Jobs.pause paused db) db
  perform (recover_compute job attempt fence now token) db =
      committed (Compute.recover_compute rt job attempt fence now token db) db
  perform (prepare_compute job token request target now) db =
      committed (Compute.prepare_compute rt job token request target now db) db
  perform (bind_compute_handle job token attempt fence handle) db =
      committed (Compute.bind_compute_handle rt job token attempt fence handle db) db
  perform (compute_uncertain job token attempt fence code) db =
      committed (Compute.compute_uncertain rt job token attempt fence code db) db
  perform (fail_before_compute job token code now) db =
      committed (Compute.fail_before_compute rt job token code now db) db
  perform (accept_compute job token attempt fence receipt is_cancelled) db =
      committed (Compute.accept_compute rt job token attempt fence receipt is_cancelled db) db
  perform (begin_compute_cancel job token attempt fence) db =
      committed (Compute.begin_compute_cancel rt job token attempt fence db) db
  perform (record_compute_cancel job token attempt fence is_acknowledged) db =
      committed (Compute.record_compute_cancel rt job token attempt fence is_acknowledged db) db

  -- Any sequence of calls, of one client or of several: each is one immediate transaction.
  unfoldable pub perform_all : List Call → Db → Db
  perform_all [] db = db
  perform_all (c ∷ cs) db = perform_all cs (perform c db)
