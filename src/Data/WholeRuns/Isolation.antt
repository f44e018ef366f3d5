-- ===== src/Data/WholeRuns/Isolation.antt =====
-- A split of whole runs keeps together what shares a decision, and fills every partition.
use mathlib.Core.List.{Memᴰ}
use sts2_the_perfect_defect.Prelude.{
  ℕ, ◌+◌, ◌<◌, ◌≤◌, ◌/◌, max, ◌≡◌, ◌⊎◌, refl, sym, ap, ◌∙◌, String, none, Bool, true, false, some,
  not, ltb, arith, inl, inr, List, All, All-member, length,
}
use sts2_the_perfect_defect.Prelude.Result.{Error, ok, err, guard, ◌>>=◌, ◌>>◌}
use sts2_the_perfect_defect.Boundary.Json.{num}
use sts2_the_perfect_defect.Contracts.Runtime.{Runtime}
use sts2_the_perfect_defect.Data.Splits.{SplitName, train, dev, test}
use sts2_the_perfect_defect.Data.WholeRuns.{
  Parents, Transition, runs, own, Assignments, partition_of, sort_groups, split_whole_runs,
}
use sts2_the_perfect_defect.Boundary.Texts.{named_in}
use sts2_the_perfect_defect.Data.WholeRuns.Forest.{Leads, Leads-unique}
use sts2_the_perfect_defect.Data.WholeRuns.Together.{components-Merges, Merges-Meet, named_run}
use sts2_the_perfect_defect.Data.WholeRuns.Merges.{Merges}
use sts2_the_perfect_defect.Data.WholeRuns.Roots.{Leads-top_of}
use sts2_the_perfect_defect.Data.WholeRuns.Assign.{assign-Alike, assign-is_held, assign-nth}
use sts2_the_perfect_defect.Data.WholeRuns.Grouped.{
  record_of, few, assigned, top, made, split_form, grouped, made-AreGroups, is_run,
}

pub record IsIsolated (records : List Transition) (m : Assignments) : Type 0 where
  pub covers : (r : Transition) → Memᴰ r records → (s : SplitName) × (m r.run_id ≡ some s)
  pub together :
      (r t : Transition)
      → Memᴰ r records
      → Memᴰ t records
      → r.fingerprint ≡ t.fingerprint
      → m r.run_id ≡ m t.run_id
  pub filled : (s : SplitName) → (r : Transition) × Memᴰ r records × (m r.run_id ≡ some s)

abbrev place_of : ℕ → SplitName → ℕ
place_of count test = 0
place_of count dev = count
place_of count train = count + count

place-partition :
    (count : ℕ) (s : SplitName) → 1 ≤ count → partition_of count count (0 + place_of count s) ≡ s
place-partition count test h = ground arith
place-partition count dev h = ground arith
place-partition count train h = ground arith

place_inside : (n : ℕ) (s : SplitName) → 3 ≤ n → place_of (max 1 (n / 10)) s < n
place_inside n test h = omega (arith, h)
place_inside n dev h = omega (arith, h)
place_inside n train h = omega (arith, h)

guarded :
    {A : Type 0} (b : Bool) (e : Error) (a : A)
    → ((guard b e >> ok a) ≡ err e) ⊎ ((b ≡ true) × ((guard b e >> ok a) ≡ ok a))
unfolding ◌>>=◌
guarded true e a = inr (refl, refl)
guarded false e a = inl refl

-- Three values do not stand at two places.
no_third :
    (m : Assignments) (a b u v w : String)
    → (u ≡ a) ⊎ (u ≡ b)
    → (v ≡ a) ⊎ (v ≡ b)
    → (w ≡ a) ⊎ (w ≡ b)
    → m u ≡ some train
    → m v ≡ some dev
    → ¬ (m w ≡ some test)
no_third m a b u v w (inl p) (inl q) hw eu ev ew = cc
no_third m a b u v w (inl p) (inr q) (inl o) eu ev ew = cc
no_third m a b u v w (inl p) (inr q) (inr o) eu ev ew = cc
no_third m a b u v w (inr p) (inr q) hw eu ev ew = cc
no_third m a b u v w (inr p) (inl q) (inl o) eu ev ew = cc
no_third m a b u v w (inr p) (inl q) (inr o) eu ev ew = cc

abbrev pub IsOneOf : String → String → Transition → Type 0
IsOneOf a b r = (r.run_id ≡ a) ⊎ (r.run_id ≡ b)

module _ (rt : Runtime) (records : List Transition) (seed : ℕ) where
  assigned-IsIsolated :
      (q : Parents) (x : Merges (runs records) (λ k. none) records (own records) q)
      → 3 ≤ length (sort_groups rt seed (made rt records seed q x))
      → IsIsolated records (assigned (sort_groups rt seed (made rt records seed q x)))
  assigned-IsIsolated q x enough =
      let gs = sort_groups rt seed (made rt records seed q x) in
      let all_of = made-AreGroups rt records seed q x in
      let count = max 1 (length gs / 10) in
      let part = partition_of count count in
      record {
        covers = λ r i.
            assign-is_held part 0 gs (λ w. none) r.run_id
              (all_of.holds r.run_id (named_run records r i));
        together = λ r t i k same.
            let (s, to_s, to_s') = Merges-Meet records q r t x i k same in
            let up_to : (v : String)
                → named_in v (runs records) ≡ true
                → Leads q v (top rt records seed q x v) =
              λ v h.
                Leads-top_of (runs records) q x.grows.forest v (is_run rt records seed q x v h) in
            let one = Leads-unique q r.run_id _ s (up_to r.run_id (named_run records r i)) to_s in
            let two = Leads-unique q t.run_id _ s (up_to t.run_id (named_run records t k)) to_s' in
            assign-Alike part 0 gs (λ w. none) r.run_id t.run_id
              (all_of.alike r.run_id t.run_id (named_run records r i) (named_run records t k)
                (one ∙ sym two))
              refl;
        filled = λ s.
            let (v, named, e) =
              assign-nth part (top rt records seed q x) (runs records) 0 (place_of count s) gs
                (λ w. none) (place_inside (length gs) s enough) all_of.groups all_of.apart in
            let (r, i, same) = record_of records v named in
            (r, i, rw same (e ∙ ap some (place-partition count s (omega arith))));
      }

  -- A split raises that there are too few components, or it assigns every run, the runs of records
  -- with one decision to one partition, and each partition has a run.
  pub split_whole_runs-IsIsolated :
      (split_whole_runs rt records (num seed) ≡ err few)
      ⊎ ((m : Assignments) × (split_whole_runs rt records (num seed) ≡ ok m) × IsIsolated records m)
  split_whole_runs-IsIsolated =
      let (q, e, x) = components-Merges records in
      let gs = sort_groups rt seed (made rt records seed q x) in
      let form =
        split_form rt records seed q (made rt records seed q x) e (grouped rt records seed q x) in
      elim (guarded (not (ltb (length gs) 3)) few (assigned gs)) [
        | inl raised ↦ inl (form ∙ raised)
        | inr (enough, answer) ↦
            inr (assigned gs, form ∙ answer, assigned-IsIsolated q x (ground arith))
      ]

  -- A split of records of at most two runs raises that there are too few components.
  pub split_whole_runs-few :
      (a b : String) → All (IsOneOf a b) records → split_whole_runs rt records (num seed) ≡ err few
  split_whole_runs-few a b all_of = elim split_whole_runs-IsIsolated [
    | inl raised ↦ raised
    | inr (m, answer, isolated) ↦
        let (r, in_r, at_train) = isolated.filled train in
        let (s, in_s, at_dev) = isolated.filled dev in
        let (t, in_t, at_test) = isolated.filled test in
        absurd (
          no_third m a b r.run_id s.run_id t.run_id (All-member (IsOneOf a b) records r all_of in_r)
            (All-member (IsOneOf a b) records s all_of in_s)
            (All-member (IsOneOf a b) records t all_of in_t) at_train at_dev at_test)
  ]
