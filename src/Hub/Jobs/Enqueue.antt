-- ===== src/Hub/Jobs/Enqueue.antt =====
-- `enqueue` of stpd/hub/database.py.
use sts2_the_perfect_defect.Prelude.{
  ℕ, suc, ◌+◌, String, Bool, true, false, ◌&&◌, ◌||◌, not, none, [], ◌∷◌, ◌++◌, ltb, leb, total,
  ◌==◌, nat_eq, string_eq, option_eq,
}
use sts2_the_perfect_defect.Prelude.Result.{
  Result, ok, err, integrity_error, ◌>>=◌, ◌>>◌, guard, branch, match_option,
}
use sts2_the_perfect_defect.Prelude.Table.{find}
use sts2_the_perfect_defect.Boundary.Json.{Json, Fields, null, num, str, obj, end, field, json_eq}
use sts2_the_perfect_defect.Boundary.Checks.{is_digest}
use sts2_the_perfect_defect.Hub.Schema.{status_eq, Job, Db, log_event, job_id, queued}
use sts2_the_perfect_defect.Hub.Jobs.Base.{Tx, hub, get}

-- `set(options) - {"resume", "stop_after"}` is empty
names_allowed : Fields → Bool
names_allowed end = true
names_allowed (field k v fs) = (k == "resume" || k == "stop_after") && names_allowed fs

is_object : Json → Bool
unfolding names_allowed
is_object (obj fs) = names_allowed fs
is_object _ = false

-- `resume is not None and (not isinstance(resume, str) or len(resume) != 64 or ...)`
valid_resume : Json → Bool
valid_resume null = true
valid_resume (str s) = is_digest 64 s
valid_resume _ = false

-- `stop_after is not None and (type(stop_after) is not int or stop_after <= 0)`
valid_stop_after : Json → Bool
valid_stop_after null = true
valid_stop_after (num (suc n)) = true
valid_stop_after _ = false

abbrev is_null : Json → Bool
is_null null = true
is_null _ = false

check_options : String → Json → Result (Unit {0})
unfolding is_object valid_resume valid_stop_after get
check_options kind options = do
  guard (is_object options) (hub "invalid_job_options")
  resume ← get options "resume"
  stop_after ← get options "stop_after"
  guard (valid_resume resume) (hub "invalid_resume")
  guard (valid_stop_after stop_after) (hub "invalid_stop_after")
  guard (not (kind == "feature" && (not (is_null resume) || not (is_null stop_after))))
      (hub "feature_resume_not_supported")

-- The checks of `enqueue` before its transaction. Numbers are natural: a caller that passes another
-- value than an int, or a negative int, is outside the model.
unfoldable pub check_enqueue : String → String → String → ℕ → ℕ → ℕ → Json → Result (Unit {0})
unfolding check_options
check_enqueue kind input_id key max_seconds units limit options = do
  check_options kind options
  guard ((kind == "feature" || kind == "training") && (ltb 0 max_seconds && leb max_seconds 86400))
      (hub "invalid_job")
  guard (is_digest 64 input_id) (hub "invalid_job_input")
  guard (not (key == "") && (ltb 0 units && ltb 0 limit)) (hub "invalid_budget")

abbrev pub request_key : Job → String
request_key j = j.request_key

abbrev pub reserved : Job → ℕ
reserved j = j.reserved_units

abbrev pub new_job : String → String → String → String → ℕ → ℕ → Json → Job
new_job id kind input_id key max_seconds units options = record {
  id = id;
  request_key = key;
  kind = kind;
  input_id = input_id;
  max_seconds = max_seconds;
  reserved_units = units;
  status = queued;
  fence = 0;
  attempt_id = none;
  lease_hash = none;
  lease_until = none;
  deadline = none;
  provider_ref = none;
  result = none;
  options = options;
}

-- `INSERT INTO jobs`, whose primary key is refused when it is taken
unfoldable pub insert_job : Job → Db → Result Db
insert_job j db =
    match_option (find job_id j.id db.jobs) (ok (record db { jobs = db.jobs ++ j ∷ [] }))
      (λ old. err integrity_error)

-- The comparison of a request with the row that its key has already made.
abbrev pub same_request : Job → String → String → ℕ → ℕ → Json → Bool
same_request old kind input_id max_seconds units options =
    old.kind == kind
    && (old.input_id == input_id
        && (old.max_seconds == max_seconds
            && (old.reserved_units == units && old.options == options)))

-- `fresh` is `secrets.token_hex(16)`.
unfoldable pub enqueue : String → String → String → ℕ → ℕ → ℕ → Json → String → Tx String
unfolding check_enqueue
enqueue kind input_id key max_seconds units limit options fresh db = do
  check_enqueue kind input_id key max_seconds units limit options
  match_option (find request_key key db.jobs)
      (do
        guard (leb (total reserved db.jobs + units) limit) (hub "budget_exhausted")
        db' ← insert_job (new_job fresh kind input_id key max_seconds units options) db
        ok (fresh, log_event "admin" "job_enqueued" fresh db'))
      (λ old.
        branch (same_request old kind input_id max_seconds units options) (ok (old.id, db))
          (err (hub "job_request_conflict")))
