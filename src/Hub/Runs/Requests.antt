-- ===== src/Hub/Runs/Requests.antt =====
-- Idempotent requests: what `enqueue` answers when the same request comes again.
use sts2_the_perfect_defect.Prelude.{
  ℕ, ◌≡◌, refl, String, true, none, some, arith, string_eq, nat_eq, eq_iff,
}
use sts2_the_perfect_defect.Prelude.Result.{
  ok, ◌>>=◌, >>=-eq-ok, Ensures, Ensures-ok, Ensures-err, Ensures-guard, Ensures-branch,
  Ensures-bind, Ensures-match,
}
use sts2_the_perfect_defect.Prelude.Table.{find, find-append_new}
use sts2_the_perfect_defect.Boundary.Json.{Json, json_eq, json_beq_iff}
use sts2_the_perfect_defect.Hub.Schema.{seconds, status_eq, Job, Db, log_event}
use sts2_the_perfect_defect.Hub.Jobs.{
  enqueue, check_enqueue, insert_job, request_key, new_job, same_request,
}

-- The row that a request key has, as the request that made it describes it.
abbrev IsEnqueued : String → String → String → ℕ → ℕ → Json → String × Db → Type 0
IsEnqueued kind input key seconds n options p =
    (j : Job) × (find request_key key p.1.jobs ≡ some j)
    × (j.id ≡ p.0)
    × (same_request j kind input seconds n options ≡ true)

inserted_row :
    (j : Job) (db : Db)
    → find request_key j.request_key db.jobs ≡ none
    → Ensures (λ db'. find request_key j.request_key db'.jobs ≡ some j) (insert_job j db)
unfolding insert_job
inserted_row j db free =
    Ensures-match _ _ _ (λ _. Ensures-ok _ (find-append_new request_key j db.jobs free))
      (λ _ _. Ensures-err _)

same_request_new :
    (fresh kind input key : String) (seconds n : ℕ) (options : Json)
    → same_request (new_job fresh kind input key seconds n options) kind input seconds n options
      ≡ true
same_request_new fresh kind input key seconds n options =
    ground (arith, eq_iff kind kind, eq_iff input input, json_beq_iff options options)

enqueue_row :
    (kind input key : String) (seconds n limit : ℕ) (options : Json) (fresh : String) (db : Db)
    → Ensures
        (IsEnqueued kind input key seconds n options)
        (enqueue kind input key seconds n limit options fresh db)
unfolding enqueue log_event
enqueue_row kind input key seconds n limit options fresh db = Ensures-bind _ _ λ _ _.
    Ensures-match _ _ _
      (λ free. Ensures-guard _ _ _ λ _. Ensures-bind _ _ λ db' inserted.
        let j = new_job fresh kind input key seconds n options in
        Ensures-ok _ (
          j,
          (inserted_row j db free).holds db' inserted,
          refl,
          same_request_new fresh kind input key seconds n options,
        ))
      (λ old found.
        Ensures-branch _ _ _ (λ same. Ensures-ok _ (old, found, refl, same)) (λ _. Ensures-err _))

enqueue_checked :
    (kind input key : String) (seconds n limit : ℕ) (options : Json) (fresh : String) (db : Db)
    (r : String × Db)
    → enqueue kind input key seconds n limit options fresh db ≡ ok r
    → check_enqueue kind input key seconds n limit options ≡ ok tt
unfolding enqueue
enqueue_checked kind input key seconds n limit options fresh db r h =
    (>>=-eq-ok (check_enqueue kind input key seconds n limit options) _ h).1

enqueue_again :
    (kind input key : String) (seconds n limit : ℕ) (options : Json) (fresh id : String) (db : Db)
    → check_enqueue kind input key seconds n limit options ≡ ok tt
    → IsEnqueued kind input key seconds n options (id, db)
    → enqueue kind input key seconds n limit options fresh db ≡ ok (id, db)
unfolding enqueue ◌>>=◌
enqueue_again kind input key seconds n limit options fresh id db checked (j, found, e, same) =
    rw (checked, found, same, e)

-- A request that is sent again answers with the same job, whatever new name is drawn, and changes
-- nothing: it reserves no second budget.
pub enqueue_idem :
    (kind input key : String) (seconds n limit : ℕ) (options : Json) (fresh fresh' id : String)
    (db db' : Db)
    → enqueue kind input key seconds n limit options fresh db ≡ ok (id, db')
    → enqueue kind input key seconds n limit options fresh' db' ≡ ok (id, db')
enqueue_idem kind input key seconds n limit options fresh fresh' id db db' h =
    enqueue_again kind input key seconds n limit options fresh' id db'
      (enqueue_checked kind input key seconds n limit options fresh db (id, db') h)
      ((enqueue_row kind input key seconds n limit options fresh db).holds (id, db') h)
