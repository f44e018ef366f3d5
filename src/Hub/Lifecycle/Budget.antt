-- ===== src/Hub/Lifecycle/Budget.antt =====
-- Reservations: what `enqueue` adds stays within the limit that it is given.
use sts2_the_perfect_defect.Prelude.{
  ℕ, ◌+◌, ◌≤◌, ◌≡◌, String, true, [], ◌∷◌, arith, total, max, total-append, leb,
}
use sts2_the_perfect_defect.Prelude.Result.{
  Ensures, Ensures-ok, Ensures-err, Ensures-guard, Ensures-branch, Ensures-bind, Ensures-match,
}
use sts2_the_perfect_defect.Prelude.Evolve.{Evolves, total-Evolves}
use sts2_the_perfect_defect.Boundary.Json.{Json}
use sts2_the_perfect_defect.Hub.Schema.{Job, Db, log_event}
use sts2_the_perfect_defect.Hub.Jobs.{enqueue, insert_job, reserved, new_job}
use sts2_the_perfect_defect.Hub.Lifecycle.Steps.{JobStep, NoJob}

-- The units that the jobs of a database have reserved.
abbrev pub units : Db → ℕ
units db = total reserved db.jobs

insert-units :
    (j : Job) (db : Db) → Ensures (λ db'. units db' ≡ units db + j.reserved_units) (insert_job j db)
unfolding insert_job
insert-units j db =
    Ensures-match _ _ _ (λ _. Ensures-ok _ (omega (arith, total-append reserved db.jobs (j ∷ []))))
      (λ old _. Ensures-err _)

room : (a b c : ℕ) → leb (a + b) c ≡ true → a + b ≤ c
room a b c h = ground arith

pub enqueue-units :
    (kind input key : String) (seconds n limit : ℕ) (options : Json) (fresh : String) (db : Db)
    → Ensures
        (λ (p : String × Db). units p.1 ≤ max (units db) limit)
        (enqueue kind input key seconds n limit options fresh db)
unfolding enqueue log_event
enqueue-units kind input key seconds n limit options fresh db = Ensures-bind _ _ λ _ _.
    Ensures-match _ _ _
      (λ _. Ensures-guard _ _ _ λ fits. Ensures-bind _ _ λ db' inserted. Ensures-ok _ (
        omega (
          arith,
          room (units db) n limit fits,
          (insert-units (new_job fresh kind input key seconds n options) db).holds db' inserted,
        )))
      (λ old _. Ensures-branch _ _ _ (λ _. Ensures-ok _ (omega arith)) (λ _. Ensures-err _))

same_units : (j k : Job) → JobStep j k → reserved k ≤ reserved j
same_units j k p = omega (arith, p.reserved_units)

-- Nothing else reserves.
pub Evolves-units : (db db' : Db) → Evolves JobStep NoJob db.jobs db'.jobs → units db' ≤ units db
Evolves-units db db' e =
    total-Evolves JobStep NoJob reserved db.jobs db'.jobs same_units (λ j h. absurd h) e
