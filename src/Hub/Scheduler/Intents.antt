-- ===== src/Hub/Scheduler/Intents.antt =====
-- A call of the provider that follows a transaction which answers whether it may be made.
use sts2_the_perfect_defect.Prelude.{
  ℕ, ◌+◌, ◌≤◌, ◌≡◌, refl, String, Bool, true, false, Option, none, some, [], ◌∷◌, arith,
  total-append, ◌==◌, string_eq, if◌then◌else◌, eq_iff, Option-cases, ap, sym,
}
use sts2_the_perfect_defect.Prelude.Result.{Result, ok, err, Ensures}
use sts2_the_perfect_defect.Prelude.Table.{find}
use sts2_the_perfect_defect.Boundary.Json.{Json}
use sts2_the_perfect_defect.Contracts.Runtime.{Runtime}
use sts2_the_perfect_defect.Contracts.Request.{ComputeRequest}
use sts2_the_perfect_defect.Contracts.Call.{ModalCall}
use sts2_the_perfect_defect.Hub.Schema.{Instant, Db, ComputeAttempt, attempt_job}
use sts2_the_perfect_defect.Hub.Jobs.{Tx}
use sts2_the_perfect_defect.Hub.Calls.{committed}
use sts2_the_perfect_defect.Hub.Compute.{prepare_compute, begin_compute_cancel}
use sts2_the_perfect_defect.Hub.Exec.{Exec, Preserves, ◌>>=◌, ◌>>◌, choose, go_on, modify}
use sts2_the_perfect_defect.Hub.Lifecycle.{prepare_compute-Calm, begin_compute_cancel-Calm}
use sts2_the_perfect_defect.Hub.Runs.{
  IsSound, Change, Change-IsSound, Change-calm, calm, IsAbsent, IsPresent, CancelIs, prepare_answer,
  begin_cancel_answer,
}
use sts2_the_perfect_defect.Hub.Scheduler.Base.{
  State, ProviderCall, submitting, cancelling, call, note_call, after_others, transacted,
}
use sts2_the_perfect_defect.Hub.Scheduler.Keeps.{
  submit_of, cancel_of, intents, cancel_requests, IsOnce, IsOnce-db, Change-Later, others-IsOnce,
}

-- Between two databases there is room for the call `c`.
abbrev Allows : ProviderCall → Db → Db → Type 0
Allows c db db' =
    (job : String)
    → (submit_of job c + intents (find attempt_job job db.attempts)
        ≤ intents (find attempt_job job db'.attempts))
      × (cancel_of job c + cancel_requests (find attempt_job job db.attempts)
          ≤ cancel_requests (find attempt_job job db'.attempts))

noted_state :
    (s : State) (db : Db) (c : ProviderCall)
    → IsOnce s
    → IsSound db
    → Allows c s.db db
    → IsOnce (note_call c (record s { db = db }))
unfolding note_call
noted_state s db c h sound room = record {
  sound = sound;
  submitted = λ job.
      omega (arith, h.submitted job, (room job).0, total-append (submit_of job) s.calls (c ∷ []));
  cancelled = λ job.
      omega (arith, h.cancelled job, (room job).1, total-append (cancel_of job) s.calls (c ∷ []));
}

one_more :
    (b : Bool) (m n : ℕ) → (b ≡ true → (m ≡ 0) × (n ≡ 1)) → m ≤ n → (if b then 1 else 0) + m ≤ n
one_more true m n h later = let (e, f) = h refl in omega arith
one_more false m n h later = omega arith

present_counts : (p : Option ComputeAttempt) → IsPresent p → intents p ≡ 1
present_counts none (a, e) = absurd (cc e)
present_counts (some b) (a, e) = refl

cancel_counts : (p : Option ComputeAttempt) → CancelIs true p → cancel_requests p ≡ 1
cancel_counts p (a, e, asked) = ground (arith, Option-cases a.cancel_state)

cancel_free : (p : Option ComputeAttempt) → CancelIs false p → cancel_requests p ≡ 0
cancel_free p (a, e, free) = ground arith

submit_room :
    (job id : String) (request : ComputeRequest) (o p : Option ComputeAttempt)
    → (id ≡ job → IsAbsent o × IsPresent p)
    → intents o ≤ intents p
    → submit_of id (submitting job request) + intents o ≤ intents p
submit_room job id request o p answer later =
    one_more (job == id) (intents o) (intents p)
      (λ e.
        let (absent, present) = answer (sym ((eq_iff job id).0 e)) in
        (ap intents absent, present_counts p present))
      later

cancel_room :
    (job id : String) (handle : ModalCall) (o p : Option ComputeAttempt)
    → (id ≡ job → CancelIs false o × CancelIs true p)
    → cancel_requests o ≤ cancel_requests p
    → cancel_of id (cancelling job handle) + cancel_requests o ≤ cancel_requests p
cancel_room job id handle o p answer later =
    one_more (job == id) (cancel_requests o) (cancel_requests p)
      (λ e.
        let (free, asked) = answer (sym ((eq_iff job id).0 e)) in
        (cancel_free o free, cancel_counts p asked))
      later

module _ (rt : Runtime) {A : Type 0} where
  noted_outcome :
      (s : State) (r : Result (Bool × Db)) (n : ℕ) (c : ProviderCall) (k k' : Exec State A)
      → IsOnce s
      → Change n s.db (committed r s.db)
      → ((p : Bool × Db) → r ≡ ok p → p.0 ≡ true → Allows c s.db p.1)
      → Preserves IsOnce k
      → Preserves IsOnce k'
      → IsOnce
          (go_on
            (transacted s r).0
            (λ b. choose b (modify (note_call c) >> k) k')
            (transacted s r).1).1
  unfolding transacted choose modify ◌>>=◌
  noted_outcome s (ok (true, db)) n c k k' h change room hk hk' =
      hk.step _
        (noted_state s db c h (Change-IsSound n s.db db h.sound change) (room (true, db) refl refl))
  noted_outcome s (ok (false, db)) n c k k' h change room hk hk' = hk'.step _ (
      IsOnce-db s db h (Change-IsSound n s.db db h.sound change) (Change-Later rt n s.db db change))
  noted_outcome s (err e) n c k k' h change room hk hk' = h

  noted-IsOnce :
      (m : Tx Bool) (c : ProviderCall) (k k' : Exec State A)
      → ((db : Db) → Change 0 db (committed (m db) db))
      → ((db : Db) → Ensures (λ (p : Bool × Db). p.0 ≡ true → Allows c db p.1) (m db))
      → Preserves IsOnce k
      → Preserves IsOnce k'
      → Preserves IsOnce (call rt m >>= λ b. choose b (modify (note_call c) >> k) k')
  unfolding call ◌>>=◌
  noted-IsOnce m c k k' change room hk hk' = record {
    step = λ s h.
        let t = after_others rt s s.others in
        noted_outcome t (m t.db) 0 c k k' (others-IsOnce rt s s.others h) (change t.db)
          (λ p e. (room t.db).holds p e) hk hk';
  }

module _ (rt : Runtime) where
  prepare_room :
      (job token : String) (json : Json) (target : String) (now : Instant)
      (request : ComputeRequest) (db : Db)
      → Ensures
          (λ (p : Bool × Db). p.0 ≡ true → Allows (submitting job request) db p.1)
          (prepare_compute rt job token json target now db)
  prepare_room job token json target now request db = record {
    holds = λ p e asked id.
        let answer = (prepare_answer rt job token json target now db).holds p e asked in
        let later =
          Change-Later rt 0 db p.1
            (Change-calm db p.1 ((prepare_compute-Calm rt job token json target now db).holds p e))
            id in
        (submit_room job id request _ _ (λ same. rw same answer) later.0, omega (arith, later.1));
  }

  cancelling_room :
      (job token attempt : String) (fence : ℕ) (handle : ModalCall) (db : Db)
      → Ensures
          (λ (p : Bool × Db). p.0 ≡ true → Allows (cancelling job handle) db p.1)
          (begin_compute_cancel rt job token attempt fence db)
  cancelling_room job token attempt fence handle db = record {
    holds = λ p e asked id.
        let answer = (begin_cancel_answer rt job token attempt fence db).holds p e asked in
        let later =
          Change-Later rt 0 db p.1
            (Change-calm db p.1
              ((begin_compute_cancel-Calm rt job token attempt fence db).holds p e))
            id in
        (omega (arith, later.0), cancel_room job id handle _ _ (λ same. rw same answer) later.1);
  }

module _ (rt : Runtime) {A : Type 0} where
  -- `prepare_compute`, and the provider's `submit` where it answers true.
  pub prepare-IsOnce :
      (job token : String) (json : Json) (target : String) (now : Instant)
      (request : ComputeRequest) (k k' : Exec State A)
      → Preserves IsOnce k
      → Preserves IsOnce k'
      → Preserves IsOnce (
          call rt (prepare_compute rt job token json target now) >>= λ b.
          choose b (modify (note_call (submitting job request)) >> k) k')
  prepare-IsOnce job token json target now request k k' =
      noted-IsOnce rt (prepare_compute rt job token json target now) (submitting job request) k k'
        (λ db. calm rt _ db (prepare_compute-Calm rt job token json target now db))
        (prepare_room rt job token json target now request)

  -- `begin_compute_cancel`, and the provider's `cancel` where it answers true.
  pub begin_cancel-IsOnce :
      (job token attempt : String) (fence : ℕ) (handle : ModalCall) (k k' : Exec State A)
      → Preserves IsOnce k
      → Preserves IsOnce k'
      → Preserves IsOnce (
          call rt (begin_compute_cancel rt job token attempt fence) >>= λ b.
          choose b (modify (note_call (cancelling job handle)) >> k) k')
  begin_cancel-IsOnce job token attempt fence handle k k' =
      noted-IsOnce rt (begin_compute_cancel rt job token attempt fence) (cancelling job handle) k k'
        (λ db. calm rt _ db (begin_compute_cancel-Calm rt job token attempt fence db))
        (cancelling_room rt job token attempt fence handle)
