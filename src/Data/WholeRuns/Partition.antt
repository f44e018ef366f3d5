-- ===== src/Data/WholeRuns/Partition.antt =====
-- The rest of `split_whole_runs` of stpd/fullrun/data.py: the groups of runs, and their partitions.
use sts2_the_perfect_defect.Prelude.{
  ℕ, suc, ◌+◌, ◌/◌, max, String, Option, none, some, List, [], ◌∷◌, ◌++◌, not, ltb, length, ◌==◌,
  string_eq, if◌then◌else◌,
}
use sts2_the_perfect_defect.Prelude.Result.{Result, ok, boundary, ◌>>=◌, ◌>>◌, guard}
use sts2_the_perfect_defect.Prelude.Table.{find, update}
use sts2_the_perfect_defect.Boundary.Json.{Json, Items, num, str, arr, nil, cons}
use sts2_the_perfect_defect.Boundary.Checks.{unsigned}
use sts2_the_perfect_defect.Contracts.Runtime.{Runtime}
use sts2_the_perfect_defect.Data.Splits.{SplitName, train, dev, test}
use sts2_the_perfect_defect.Data.WholeRuns.Components.{Transition, Parents, runs, root, components}
use sts2_the_perfect_defect.Boundary.Texts.{less, sorted_set}

-- An entry of `groups`
pub record Group : Type 0 where
  pub leader : String
  pub members : List String

abbrev pub group_leader : Group → String
group_leader g = g.leader

abbrev pub grown : String → Group → Group
grown run g = record g { members = g.members ++ run ∷ [] }

unfoldable pub add_found : Option Group → String → String → List Group → List Group
add_found none r run gs = gs ++ record { leader = r; members = run ∷ [] } ∷ []
add_found (some g) r run gs = update group_leader r (grown run) gs

-- `groups[root(run_id)].append(run_id)`, where a new root starts with an empty list
abbrev pub add_run : String → String → List Group → List Group
add_run r run gs = add_found (find group_leader r gs) r run gs

unfoldable pub group_all : ℕ → Parents → List String → List Group → Result (List Group)
group_all fuel p [] gs = ok gs
group_all fuel p (v ∷ vs) gs = do (r, p') ← root fuel p v; group_all fuel p' vs (add_run r v gs)

unfoldable pub texts : List String → Items
texts [] = nil
texts (v ∷ vs) = cons (str v) (texts vs)

-- The assignments are a dict, that is a function.
abbrev pub Assignments : Type 0
Assignments = String → Option SplitName

-- `assignments.update({run_id: partition for run_id in component})`
unfoldable pub assign_runs : SplitName → List String → Assignments → Assignments
assign_runs s [] m = m
assign_runs s (v ∷ vs) m = assign_runs s vs (λ w. if w == v then some s else m w)

abbrev pub partition_of : ℕ → ℕ → ℕ → SplitName
partition_of test_count dev_count index =
    if ltb index test_count then test else if ltb index (test_count + dev_count) then dev else train

unfoldable pub assign_groups : (ℕ → SplitName) → ℕ → List Group → Assignments → Assignments
assign_groups part index [] m = m
assign_groups part index (g ∷ gs) m =
    assign_groups part (suc index) gs (assign_runs (part index) g.members m)

module _ (rt : Runtime) where
  abbrev pub group_key : ℕ → Group → String
  group_key seed g = rt.semantic_hash (arr (cons (num seed) (cons (arr (texts g.members)) nil)))

  -- `sorted`, which keeps the order of groups with equal keys
  unfoldable pub insert_group : ℕ → Group → List Group → List Group
  insert_group seed g [] = g ∷ []
  insert_group seed g (h ∷ hs) =
      let rest = insert_group seed g hs in
      if less (group_key seed h) (group_key seed g) then h ∷ rest else g ∷ h ∷ hs

  unfoldable pub sort_groups : ℕ → List Group → List Group
  sort_groups seed [] = []
  sort_groups seed (g ∷ gs) = insert_group seed g (sort_groups seed gs)

  unfoldable pub split_whole_runs : List Transition → Json → Result Assignments
  split_whole_runs records value = do
    seed ← unsigned value "split.seed"
    p ← components records
    -- `sorted(parent)`: merges and searches give a run another parent, and no run comes or goes.
    groups ← group_all (length records) p (sorted_set (runs records)) []
    let gs = sort_groups seed groups
    guard (not (ltb (length gs) 3)) (boundary "split" "insufficient_independent_run_components")
    let count = max 1 (length gs / 10)
    ok (assign_groups (partition_of count count) 0 gs (λ w. none))
