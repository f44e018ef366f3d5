-- ===== src/Data/WholeRuns/Components.antt =====
-- The union of runs in `split_whole_runs` of stpd/fullrun/data.py, up to its last merge. A record is
-- its run and its decision fingerprint; a dict is a function.
use sts2_the_perfect_defect.Prelude.{
  ℕ, zero, suc, String, Option, none, some, List, [], ◌∷◌, ◌==◌, string_eq, length, map,
  if◌then◌else◌,
}
use sts2_the_perfect_defect.Prelude.Result.{
  Result, ok, err, key_error, boundary, ◌>>=◌, expect, branch,
}
use sts2_the_perfect_defect.Data.WholeRuns.Order.{larger, smaller}
use sts2_the_perfect_defect.Boundary.Texts.{named_in}

pub record Transition : Type 0 where
  pub run_id : String
  pub fingerprint : String

abbrev pub Parents : Type 0
Parents = String → Option String

abbrev pub runs : List Transition → List String
runs records = map (λ r. r.run_id) records

-- `{record.run_id: record.run_id for record in records}`
abbrev pub own : List Transition → Parents
own records v = if named_in v (runs records) then some v else none

-- `parent[v] = u`
abbrev pub link : String → String → Parents → Parents
link v u p w = if w == v then some u else p w

-- `root`, which halves the path that it goes. Running out of fuel is no behaviour of the source.
unfoldable pub root : ℕ → Parents → String → Result (String × Parents)
root zero p v = err (boundary "split" "out_of_fuel")
root (suc n) p v = do
  u ← expect (p v) key_error
  branch (u == v) (ok (v, p)) (do g ← expect (p u) key_error; root n (link v g p) g)

-- `first.setdefault(fingerprint, run)`, its value and the dict after it
unfoldable pub previous_of : Option String → String → String
previous_of none run = run
previous_of (some f) run = f

abbrev pub joined : String → String → Parents → Parents
joined left right p = if left == right then p else link (larger left right) (smaller left right) p

unfoldable pub merge_all : ℕ → Parents → List Transition → Parents → Result Parents
merge_all fuel first [] p = ok p
merge_all fuel first (r ∷ rs) p = do
  let previous = previous_of (first r.fingerprint) r.run_id
  (left, p1) ← root fuel p previous
  (right, p2) ← root fuel p1 r.run_id
  merge_all fuel (link r.fingerprint previous first) rs (joined left right p2)

-- There are as many records as runs, or more.
unfoldable pub components : List Transition → Result Parents
components records = merge_all (length records) (λ k. none) records (own records)
