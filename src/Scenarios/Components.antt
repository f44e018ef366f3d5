-- ===== src/Scenarios/Components.antt =====
-- Three runs, two of which share a decision.
use sts2_the_perfect_defect.Prelude.{◌≡◌, ◌↔◌, ◌⊎◌, inl, inr, refl, List, [], ◌∷◌}
use sts2_the_perfect_defect.Prelude.Result.{ok, err}
use sts2_the_perfect_defect.Data.WholeRuns.{
  Parents, Transition, Assignments, components, split_whole_runs,
}
use sts2_the_perfect_defect.Data.WholeRuns.Linked.{components-Linked, Linked}
use sts2_the_perfect_defect.Data.WholeRuns.Merges.{Meet}
use sts2_the_perfect_defect.Data.WholeRuns.Grouped.{few}
use sts2_the_perfect_defect.Data.WholeRuns.Isolation.{
  split_whole_runs-IsIsolated, split_whole_runs-few, IsIsolated,
}
use sts2_the_perfect_defect.Boundary.Json.{num}
use sts2_the_perfect_defect.Scenarios.Data.{rt}

abbrev early : Transition
early = record { run_id = "run-b"; fingerprint = "turn-1" }

abbrev late : Transition
late = record { run_id = "run-c"; fingerprint = "turn-1" }

abbrev records : List Transition
records = record { run_id = "run-a"; fingerprint = "turn-2" } ∷ early ∷ late ∷ []

components-Linked_example :
    (q : Parents) × (components records ≡ ok q)
    × (Meet q "run-b" "run-c" ↔ Linked records "run-b" "run-c")
components-Linked_example = components-Linked records "run-b" "run-c"

abbrev played : List Transition
played =
    record { run_id = "run-d"; fingerprint = "turn-3" }
    ∷ record { run_id = "run-e"; fingerprint = "turn-4" }
    ∷ records

split_whole_runs-IsIsolated_example :
    (split_whole_runs rt played (num 7) ≡ err few)
    ⊎ ((m : Assignments) × (split_whole_runs rt played (num 7) ≡ ok m) × IsIsolated played m)
split_whole_runs-IsIsolated_example = split_whole_runs-IsIsolated rt played 7

split_whole_runs-few_example : split_whole_runs rt (early ∷ late ∷ early ∷ []) (num 7) ≡ err few
split_whole_runs-few_example =
    split_whole_runs-few rt (early ∷ late ∷ early ∷ []) 7 "run-b" "run-c"
      (inl refl, (inr refl, (inl refl, tt)))
