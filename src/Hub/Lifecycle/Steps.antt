-- ===== src/Hub/Lifecycle/Steps.antt =====
-- The steps of a job's row and of an attempt's row, with their composition.
use sts2_the_perfect_defect.Prelude.{
  ℕ, ◌≤◌, ◌≡◌, ◌⊎◌, refl, Bool, true, false, Option, none, some, arith, ◌∙◌, inl, inr, ap, ◌+◌,
  ◌||◌, not, leb, ◌==◌, if◌then◌else◌,
}
use sts2_the_perfect_defect.Prelude.Evolve.{Evolves, Evolves-refl}
use sts2_the_perfect_defect.Prelude.Keyed.{IsKeyed}
use sts2_the_perfect_defect.Hub.Schema.{
  Status, status_eq, job_id, attempt_job, Job, ComputeAttempt, Db, is_active, is_settled, queued,
  running, submission_unknown, uncertain, cancelling, completed, paused, failed, cancelled,
}

-- The states that a job in one state can come to. A cancelling job can only end cancelled, and a
-- settled job stays as it is.
abbrev pub may_become : Status → Status → Bool
may_become queued t = true
may_become running queued = false
may_become running t = true
may_become submission_unknown queued = false
may_become submission_unknown running = false
may_become submission_unknown t = true
may_become uncertain queued = false
may_become uncertain running = false
may_become uncertain t = true
may_become cancelling cancelling = true
may_become cancelling cancelled = true
may_become completed completed = true
may_become paused paused = true
may_become failed failed = true
may_become cancelled cancelled = true
may_become _ _ = false

pub may_become_refl : (s : Status) → may_become s s ≡ true
may_become_refl s = ground arith

pub may_become_trans :
    (s t u : Status) → may_become s t ≡ true → may_become t u ≡ true → may_become s u ≡ true
may_become_trans s t u h k = ground arith

-- The row leaves the queue, and its fence advances by one.
abbrev pub Starts : Job → Job → Type 0
Starts j k =
    ((j.status == queued) ≡ true) × ((k.status == queued) ≡ false) × (k.fence ≡ j.fence + 1)

-- A running row has a lease and a deadline, and the lease ends by the deadline.
abbrev bounded_by : Option ℕ → Option ℕ → Bool
bounded_by (some until) (some deadline) = leb until deadline
bounded_by _ _ = false

abbrev pub has_lease : Job → Bool
has_lease j = not (j.status == running) || bounded_by j.lease_until j.deadline

-- One step of a job's row: what stays, where the state may go, and what keeps its meaning.
pub record JobStep (j k : Job) : Type 0 where
  pub id : k.id ≡ j.id
  pub request_key : k.request_key ≡ j.request_key
  pub kind : k.kind ≡ j.kind
  pub input_id : k.input_id ≡ j.input_id
  pub max_seconds : k.max_seconds ≡ j.max_seconds
  pub reserved_units : k.reserved_units ≡ j.reserved_units
  pub options : k.options ≡ j.options
  pub moves : may_become j.status k.status ≡ true
  pub result_kept : is_settled j.status ≡ true → k.result ≡ j.result
  pub fence_step : (k.fence ≡ j.fence) ⊎ Starts j k
  pub leased : has_lease j ≡ true → has_lease k ≡ true

pub record AttemptStep (a b : ComputeAttempt) : Type 0 where
  pub job_id : b.job_id ≡ a.job_id
  pub attempt_id : b.attempt_id ≡ a.attempt_id
  pub fence : b.fence ≡ a.fence
  pub request_id : b.request_id ≡ a.request_id
  pub request : b.request ≡ a.request
  pub target_id : b.target_id ≡ a.target_id
  pub handle_kept : (a.handle ≡ none) ⊎ (b.handle ≡ a.handle)
  pub cancel_kept : b.cancel_state ≡ none → a.cancel_state ≡ none

-- What an operation leaves of a row that it inserts.
abbrev pub NewJob : Job → Type 0
NewJob j = (j.status ≡ queued) × (j.fence ≡ 0)

abbrev pub NoJob : Job → Type 0
NoJob j = ⊥

abbrev pub AnyAttempt : ComputeAttempt → Type 0
AnyAttempt a = Unit

pub JobStep-refl : (j : Job) → JobStep j j
JobStep-refl j = record {
  id = refl;
  request_key = refl;
  kind = refl;
  input_id = refl;
  max_seconds = refl;
  reserved_units = refl;
  options = refl;
  moves = may_become_refl j.status;
  result_kept = λ h. refl;
  fence_step = inl refl;
  leased = λ h. h;
}

-- A settled state is final, and nothing comes back to the queue.
pub settled_stays : (s t : Status) → is_settled s ≡ true → may_become s t ≡ true → t ≡ s
settled_stays s t h k = ground arith

pub first_queued :
    (s t : Status) → may_become s t ≡ true → (t == queued) ≡ true → (s == queued) ≡ true
first_queued s t h e = ground arith

not_queued_after :
    (s t : Status) → may_become s t ≡ true → (s == queued) ≡ false → (t == queued) ≡ false
not_queued_after s t h e = ground arith

module _ (i j k : Job) (p : JobStep i j) (q : JobStep j k) where
  result_kept_trans : is_settled i.status ≡ true → k.result ≡ i.result
  result_kept_trans h =
      let same = settled_stays i.status j.status h p.moves in
      q.result_kept (rw same h) ∙ p.result_kept h

  fence_step_trans : (k.fence ≡ i.fence) ⊎ Starts i k
  fence_step_trans = elim p.fence_step [
    | inl e ↦ elim q.fence_step [
      | inl f ↦ inl (f ∙ e)
      | inr f ↦ inr (first_queued i.status j.status p.moves f.0, f.1, f.2 ∙ ap (λ n. n + 1) e)
    ]
    | inr e ↦ elim q.fence_step [
      | inl f ↦ inr (e.0, not_queued_after j.status k.status q.moves e.1, f ∙ e.2)
      | inr f ↦ absurd (ground arith)
    ]
  ]

  pub JobStep-trans : JobStep i k
  JobStep-trans = record {
    id = q.id ∙ p.id;
    request_key = q.request_key ∙ p.request_key;
    kind = q.kind ∙ p.kind;
    input_id = q.input_id ∙ p.input_id;
    max_seconds = q.max_seconds ∙ p.max_seconds;
    reserved_units = q.reserved_units ∙ p.reserved_units;
    options = q.options ∙ p.options;
    moves = may_become_trans i.status j.status k.status p.moves q.moves;
    result_kept = result_kept_trans;
    fence_step = fence_step_trans;
    leased = λ h. q.leased (p.leased h);
  }

pub AttemptStep-refl : (a : ComputeAttempt) → AttemptStep a a
AttemptStep-refl a = record {
  job_id = refl;
  attempt_id = refl;
  fence = refl;
  request_id = refl;
  request = refl;
  target_id = refl;
  handle_kept = inr refl;
  cancel_kept = λ h. h;
}

module _ (a b c : ComputeAttempt) (p : AttemptStep a b) (q : AttemptStep b c) where
  pub AttemptStep-trans : AttemptStep a c
  AttemptStep-trans = record {
    job_id = q.job_id ∙ p.job_id;
    attempt_id = q.attempt_id ∙ p.attempt_id;
    fence = q.fence ∙ p.fence;
    request_id = q.request_id ∙ p.request_id;
    request = q.request ∙ p.request;
    target_id = q.target_id ∙ p.target_id;
    handle_kept = ground (arith, p.handle_kept, q.handle_kept);
    cancel_kept = λ h. p.cancel_kept (q.cancel_kept h);
  }

-- What one call may do to the tables: the step that it may take on a job, and the jobs that it adds.
pub record Effect (Step : Job → Job → Type 0) (New : Job → Type 0) (db db' : Db) : Type 0 where
  pub jobs : Evolves Step New db.jobs db'.jobs
  pub attempts : Evolves AttemptStep AnyAttempt db.attempts db'.attempts
  pub keyed_jobs : IsKeyed job_id db.jobs → IsKeyed job_id db'.jobs
  pub keyed_attempts : IsKeyed attempt_job db.attempts → IsKeyed attempt_job db'.attempts

abbrev pub busy : Job → ℕ
busy j = if is_active j.status then 1 else 0

-- A step of a job that does not start it.
abbrev pub CalmStep : Job → Job → Type 0
CalmStep j k = JobStep j k × (busy k ≤ busy j)

pub CalmStep-refl : (j : Job) → CalmStep j j
CalmStep-refl j = (JobStep-refl j, omega arith)

pub Effect-refl : (db : Db) → Effect CalmStep NoJob db db
Effect-refl db = record {
  jobs = Evolves-refl CalmStep NoJob db.jobs CalmStep-refl;
  attempts = Evolves-refl AttemptStep AnyAttempt db.attempts AttemptStep-refl;
  keyed_jobs = λ h. h;
  keyed_attempts = λ h. h;
}
