-- ===== src/Data/WholeRuns/Grouped.antt =====
-- What `split_whole_runs` groups and sorts: its components, apart from each other.
use mathlib.Core.List.{Memᴰ}
use sts2_the_perfect_defect.Prelude.{
  ℕ, ◌/◌, max, ◌≡◌, refl, Bool, sym, ◌∙◌, String, true, none, some, not, ltb, arith, ◌==◌,
  string_eq, eq_iff, Bool-cases, inl, inr, List, [], ◌∷◌, All, length,
}
use sts2_the_perfect_defect.Prelude.Result.{Error, ok, boundary, guard, ◌>>=◌, ◌>>◌}
use sts2_the_perfect_defect.Prelude.Table.{find, All-find}
use sts2_the_perfect_defect.Prelude.Keyed.{IsKeyed, All-found}
use sts2_the_perfect_defect.Boundary.Json.{num}
use sts2_the_perfect_defect.Boundary.Checks.{unsigned}
use sts2_the_perfect_defect.Contracts.Runtime.{Runtime}
use sts2_the_perfect_defect.Data.WholeRuns.{
  Parents, Transition, runs, own, components, Group, group_leader, group_all, Assignments,
  partition_of, assign_groups, sort_groups, split_whole_runs,
}
use sts2_the_perfect_defect.Data.WholeRuns.Together.{length-runs}
use sts2_the_perfect_defect.Data.WholeRuns.Merges.{IsRun, Merges}
use sts2_the_perfect_defect.Data.WholeRuns.Groups.{
  IsGroup, Holds, collect, collect-IsKeyed, collect-All, collect-Holds,
}
use sts2_the_perfect_defect.Data.WholeRuns.Roots.{top_of, group_all-collect}
use sts2_the_perfect_defect.Data.WholeRuns.Assign.{
  Apart, AreApart, Alike, is_held, Holds-is_held, sort-All, sort-AreApart, sort-is_held,
}
use sts2_the_perfect_defect.Boundary.Texts.{named_in, sorted_set, sorted_set-named}

All-named :
    (P : String → Type 0) (vs : List String)
    → ((v : String) → named_in v vs ≡ true → P v)
    → All P vs
unfolding named_in
All-named P [] h = tt
All-named P (v ∷ vs) h =
    (h v (ground (arith, eq_iff v v)), All-named P vs (λ w i. h w (ground arith)))

pub record_of :
    (records : List Transition) (v : String)
    → named_in v (runs records) ≡ true
    → (r : Transition) × Memᴰ r records × (r.run_id ≡ v)
unfolding named_in
record_of [] v h = absurd (ground arith)
record_of (r ∷ rs) v h = elim (Bool-cases (r.run_id == v)) [
  | inl e ↦ (r, Memᴰ.head refl, (eq_iff r.run_id v).0 e)
  | inr e ↦ let (t, m, same) = record_of rs v (rw e at h) in (t, Memᴰ.tail m, same)
]

module _ (top : String → String) (names : List String) where
  fresh-Apart :
      (g : Group) (hs : List Group)
      → find group_leader g.leader hs ≡ none
      → IsGroup top names g
      → All (IsGroup top names) hs
      → All (Apart g) hs
  unfolding find
  fresh-Apart g [] k b a = tt
  fresh-Apart g (h ∷ hs) k b a = (
    λ w i. elim (Bool-cases (named_in w h.members)) [
      | inl e ↦
          let same = (eq_iff h.leader g.leader).1 (sym (a.0.led w e) ∙ b.led w i) in
          absurd (ground (arith, same))
      | inr e ↦ e
    ],
    fresh-Apart g hs (ground arith) b a.1,
  )

  -- Groups that each root has once, of runs that lead to it, are apart.
  leaders_apart :
      (gs : List Group) → IsKeyed group_leader gs → All (IsGroup top names) gs → AreApart gs
  leaders_apart [] k a = tt
  leaders_apart (g ∷ gs) k a = (fresh-Apart g gs k.0 a.0 a.1, leaders_apart gs k.1 a.1)

both_ways : (a b : Bool) → (a ≡ true → b ≡ true) → (b ≡ true → a ≡ true) → a ≡ b
both_ways a b f g = ground arith

same_some : {g h : Group} → some g ≡ some h → g ≡ h
same_some e = cc

module _ (top : String → String) (names : List String) (gs : List Group)
    (keyed : IsKeyed group_leader gs) (groups : All (IsGroup top names) gs) where
  same_group :
      (v w : String) (g : Group)
      → IsGroup top names g
      → find group_leader g.leader gs ≡ some g
      → top v ≡ top w
      → Holds gs (top w) w
      → named_in v g.members ≡ true
      → named_in w g.members ≡ true
  same_group v w g is_group found one (h, found', there) here =
      let leads : top w ≡ g.leader = sym one ∙ is_group.led v here in
      let same : h ≡ g = same_some (sym (rw leads at found') ∙ found) in rw same at there

  groups-Alike :
      (v w : String) → Holds gs (top v) v → Holds gs (top w) w → top v ≡ top w → All (Alike v w) gs
  groups-Alike v w hv hw one = All-found group_leader (Alike v w) gs keyed λ g found.
      let is_group = All-find group_leader (IsGroup top names) g.leader gs g groups found in
      both_ways (named_in v g.members) (named_in w g.members)
        (same_group v w g is_group found one hw) (same_group w v g is_group found (sym one) hv)

-- What the sorted groups of the runs are
pub record AreGroups (records : List Transition) (top : String → String) (gs : List Group)
    : Type 0 where
  pub groups : All (IsGroup top (runs records)) gs
  pub apart : AreApart gs
  pub holds : (v : String) → named_in v (runs records) ≡ true → is_held v gs ≡ true
  pub alike :
      (v w : String)
      → named_in v (runs records) ≡ true
      → named_in w (runs records) ≡ true
      → top v ≡ top w
      → All (Alike v w) gs

abbrev pub few : Error
few = boundary "split" "insufficient_independent_run_components"

abbrev pub assigned : List Group → Assignments
assigned gs =
    let count = max 1 (length gs / 10) in assign_groups (partition_of count count) 0 gs (λ w. none)

module _ (rt : Runtime) (records : List Transition) (seed : ℕ) where
  abbrev names : List String
  names = runs records

  pub split_form :
      (q : Parents) (gs : List Group)
      → components records ≡ ok q
      → group_all (length names) q (sorted_set names) [] ≡ ok gs
      → split_whole_runs rt records (num seed) ≡ (
          guard (not (ltb (length (sort_groups rt seed gs)) 3)) few
          >> ok (assigned (sort_groups rt seed gs)))
  unfolding split_whole_runs unsigned ◌>>=◌
  split_form q gs h k = let k' = rw (length-runs records) at k in rw (h, k') refl

  module _ (q : Parents) (m : Merges names (λ k. none) records (own records) q) where
    abbrev pub top : String → String
    top v = top_of (length names) q v

    pub is_run : (v : String) → named_in v names ≡ true → IsRun q v
    is_run v h = m.grows.extends v v (rw h refl)

    abbrev pub made : List Group
    made = collect top (sorted_set names) []

    pub grouped : group_all (length names) q (sorted_set names) [] ≡ ok made
    grouped =
        group_all-collect names q m.grows.forest q m.grows.forest (λ v u h. (u, h)) (λ w s l. l)
          (sorted_set names)
          (All-named (IsRun q) (sorted_set names)
            λ v h. is_run v (rw (sorted_set-named v names) at h))
          []

    pub made-AreGroups : AreGroups records top (sort_groups rt seed made)
    made-AreGroups =
        let keyed = collect-IsKeyed top names (sorted_set names) [] tt in
        let groups =
          collect-All top names (sorted_set names) [] (λ w i. rw (sorted_set-named w names) at i)
            tt in
        let held : (v : String) → named_in v names ≡ true → Holds made (top v) v = λ v h.
          collect-Holds top names (sorted_set names) [] v (rw (sorted_set-named v names) h) in
        record {
          groups = sort-All rt seed (IsGroup top names) made groups;
          apart = sort-AreApart rt seed made (leaders_apart top names made keyed groups);
          holds = λ v h. sort-is_held rt seed v made ∙ Holds-is_held made (top v) v (held v h);
          alike = λ v w hv hw one.
              sort-All rt seed (Alike v w) made
                (groups-Alike top names made keyed groups v w (held v hv) (held w hw) one);
        }
