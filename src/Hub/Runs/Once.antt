-- ===== src/Hub/Runs/Once.antt =====
-- What happens at most once for each job: its invocation intent, and its request to cancel.
use sts2_the_perfect_defect.Prelude.{
  ℕ, ◌≡◌, ◌≢◌, refl, String, Bool, true, false, Option, none, some, List, arith,
}
use sts2_the_perfect_defect.Prelude.Result.{
  ok, Ensures, Ensures-ok, Ensures-guard, Ensures-bind, Ensures-match, Ensures-expect,
}
use sts2_the_perfect_defect.Prelude.Table.{find, find-append_new, find-update_self}
use sts2_the_perfect_defect.Boundary.Json.{Json}
use sts2_the_perfect_defect.Contracts.Runtime.{Runtime}
use sts2_the_perfect_defect.Hub.Schema.{
  Instant, Db, ComputeAttempt, attempt_job, requested, log_event,
}
use sts2_the_perfect_defect.Hub.Compute.{prepare_compute, new_attempt, begin_compute_cancel}
use sts2_the_perfect_defect.Hub.Calls.{Call, perform, perform_all}
use sts2_the_perfect_defect.Hub.Runs.Invariant.{IsSound, Change-IsSound, perform-Change, allowance}
use sts2_the_perfect_defect.Hub.Runs.Laws.{attempt_after}

-- What a transaction says of a job's attempt where it answers `true`: `P` before, `Q` after.
abbrev pub Answers : (P Q : Option ComputeAttempt → Type 0) → String → Db → Bool × Db → Type 0
Answers P Q job db p =
    p.0 ≡ true → P (find attempt_job job db.attempts) × Q (find attempt_job job p.1.attempts)

abbrev pub IsAbsent : Option ComputeAttempt → Type 0
IsAbsent o = o ≡ none

abbrev pub IsPresent : Option ComputeAttempt → Type 0
IsPresent o = (a : ComputeAttempt) × (o ≡ some a)

abbrev pub CancelIs : Bool → Option ComputeAttempt → Type 0
CancelIs true o = (a : ComputeAttempt) × (o ≡ some a) × (a.cancel_state ≢ none)
CancelIs false o = (a : ComputeAttempt) × (o ≡ some a) × (a.cancel_state ≡ none)

module _ (rt : Runtime) where
  pub prepare_answer :
      (job token : String) (request : Json) (target : String) (now : Instant) (db : Db)
      → Ensures
          (Answers IsAbsent IsPresent job db)
          (prepare_compute rt job token request target now db)
  unfolding prepare_compute log_event
  prepare_answer job token request target now db = Ensures-bind _ _ λ value _.
      Ensures-bind _ _ λ _ _. Ensures-bind _ _ λ row _. Ensures-bind _ _ λ kind _.
        Ensures-guard _ _ _ λ _. Ensures-bind _ _ λ resume _. Ensures-bind _ _ λ stop _.
          Ensures-guard _ _ _ λ _.
            Ensures-match _ _ _
              (λ free.
                let added = new_attempt job target request row.fence rt value in
                Ensures-ok _
                  (λ _. (free, (added, find-append_new attempt_job added db.attempts free))))
              (λ prior _. Ensures-guard _ _ _ λ _. Ensures-ok _ (λ f. absurd (cc f)))

  pub begin_cancel_answer :
      (job token attempt : String) (fence : ℕ) (db : Db)
      → Ensures
          (Answers (CancelIs false) (CancelIs true) job db)
          (begin_compute_cancel rt job token attempt fence db)
  unfolding begin_compute_cancel log_event
  begin_cancel_answer job token attempt fence db = Ensures-bind _ _ λ row _.
      Ensures-guard _ _ _ λ _. Ensures-expect _ _ _ λ current found. Ensures-guard _ _ _ λ _.
        Ensures-match _ _ _
          (λ free. Ensures-ok _ (λ _. (
            (current, found, free),
            (
              record current { cancel_state = some requested },
              find-update_self attempt_job job (λ a. record a { cancel_state = some requested })
                  db.attempts current (λ a. refl) found,
              λ e. cc e,
            ),
          )))
          (λ _ _. Ensures-ok _ (λ f. absurd (cc f)))

  IsSound-after : (c : Call) (db db' : Db) → IsSound db → perform rt c db ≡ db' → IsSound db'
  IsSound-after c db db' s e =
      rw (← e)
        (Change-IsSound (allowance c) db (perform rt c db) s (perform-Change rt c db s.keyed_jobs))

  -- An attempt that is there stays there, so a second intent is never recorded.
  pub prepare_once :
      (job token token' : String) (request request' : Json) (target target' : String)
      (now now' : Instant) (cs : List Call) (db db' db'' : Db)
      → IsSound db
      → prepare_compute rt job token request target now db ≡ ok (true, db')
      → prepare_compute rt job token' request' target' now' (perform_all rt cs db')
        ≢ ok (true, db'')
  unfolding perform
  prepare_once job token token' request request' target target' now now' cs db db' db'' s first
        again =
      let sound : IsSound db' =
        IsSound-after (Call.prepare_compute job token request target now) db db' s (rw first) in
      let (a, found) =
        ((prepare_answer job token request target now db).holds (true, db') first refl).1 in
      let (b, found', step) = attempt_after rt cs db' sound job a found in
      let absent =
        ((prepare_answer job token' request' target' now' (perform_all rt cs db')).holds
          (true, db'') again refl).0 in
      cc (absent, found')

  -- A request to cancel that was recorded is never recorded again for the same attempt.
  pub cancel_once :
      (job token token' attempt attempt' : String) (fence fence' : ℕ) (cs : List Call)
      (db db' db'' : Db)
      → IsSound db
      → begin_compute_cancel rt job token attempt fence db ≡ ok (true, db')
      → begin_compute_cancel rt job token' attempt' fence' (perform_all rt cs db') ≢ ok (true, db'')
  unfolding perform
  cancel_once job token token' attempt attempt' fence fence' cs db db' db'' s first again =
      let sound : IsSound db' =
        IsSound-after (Call.begin_compute_cancel job token attempt fence) db db' s (rw first) in
      let (a, found, taken) =
        ((begin_cancel_answer job token attempt fence db).holds (true, db') first refl).1 in
      let (b, found', step) = attempt_after rt cs db' sound job a found in
      let (c, found'', free) =
        ((begin_cancel_answer job token' attempt' fence' (perform_all rt cs db')).holds (true, db'')
          again refl).0 in
      let same : b ≡ c = ground arith in taken (step.cancel_kept (rw same free))
