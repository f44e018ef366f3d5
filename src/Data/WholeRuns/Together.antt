-- ===== src/Data/WholeRuns/Together.antt =====
-- The merges of all records: they end, and runs that share a decision end at one root.
use mathlib.Core.List.{Memᴰ}
use sts2_the_perfect_defect.Prelude.{
  suc, ◌≡◌, refl, sym, ap, String, true, none, some, arith, string_eq, eq_iff, Bool-cases, inl, inr,
  List, [], ◌∷◌, All, All-member, length,
}
use sts2_the_perfect_defect.Prelude.Result.{ok}
use sts2_the_perfect_defect.Boundary.Texts.{named_in}
use sts2_the_perfect_defect.Data.WholeRuns.Components.{Parents, Transition, own, runs, components}
use sts2_the_perfect_defect.Data.WholeRuns.Forest.{Leads-unique, IsForest, some_same}
use sts2_the_perfect_defect.Data.WholeRuns.Merges.{IsRun, Meet, IsMet, Merges, merge_all-Merges}

pub named_run :
    (records : List Transition) (r : Transition)
    → Memᴰ r records
    → named_in r.run_id (runs records) ≡ true
unfolding named_in
named_run [] r m = elim m [ ]
named_run (x ∷ xs) r (Memᴰ.head e) =
    let same = (eq_iff x.run_id r.run_id).1 (ap (λ (t : Transition). t.run_id) (sym e)) in
    ground (arith, same)
named_run (x ∷ xs) r (Memᴰ.tail m) = let rest = named_run xs r m in ground (arith, rest)

-- Every run of a list is its own parent to begin with.
pub own_run :
    (records : List Transition) (r : Transition)
    → Memᴰ r records
    → own records r.run_id ≡ some r.run_id
own_run records r m = rw (named_run records r m) refl

pub own_parent :
    (records : List Transition) (v u : String)
    → own records v ≡ some u
    → (named_in v (runs records) ≡ true) × (v ≡ u)
own_parent records v u h = elim (Bool-cases (named_in v (runs records))) [
  | inl e ↦ (e, some_same (rw e at h))
  | inr e ↦ let no : none ≡ some u = rw e at h in cc
]

own-IsForest : (records : List Transition) → IsForest (runs records) (own records)
own-IsForest records = record {
  descends = λ v u h d.
      let same = (own_parent records v u h).1 in absurd (ground (arith, eq_iff u v, same));
  named = λ v u h. (own_parent records v u h).0;
  closed = λ v u h. let same = (own_parent records v u h).1 in (u, rw same at h);
}

pub own-All :
    (records rs : List Transition)
    → ((r : Transition) → Memᴰ r rs → Memᴰ r records)
    → All (λ (r : Transition). IsRun (own records) r.run_id) rs
own-All records [] sub = tt
own-All records (r ∷ rs) sub = (
  (r.run_id, own_run records r (sub r (Memᴰ.head refl))),
  own-All records rs (λ t m. sub t (Memᴰ.tail m)),
)

pub length-runs : (records : List Transition) → length (runs records) ≡ length records
length-runs [] = refl
length-runs (r ∷ rs) = ap suc (length-runs rs)

pub components-Merges :
    (records : List Transition)
    → (q : Parents) × (components records ≡ ok q)
      × Merges (runs records) (λ k. none) records (own records) q
unfolding components
components-Merges records =
    let (q, e, m) =
      merge_all-Merges (runs records) records (λ k. none) (own records) (own-IsForest records)
        (own-All records records (λ t i. i)) (λ k f h. cc) in
    (q, rw (length-runs records) at e, m)

pub Merges-Meet :
    (records : List Transition) (q : Parents) (r t : Transition)
    → Merges (runs records) (λ k. none) records (own records) q
    → Memᴰ r records
    → Memᴰ t records
    → r.fingerprint ≡ t.fingerprint
    → Meet q r.run_id t.run_id
Merges-Meet records q r t m in_r in_t same =
    let (s, to_s, other) = All-member (IsMet q m.stands) records r m.meets in_r in
    let (s', to_s', other') = All-member (IsMet q m.stands) records t m.meets in_t in
    let one = Leads-unique q (m.stands t.fingerprint) s' s other' (rw same at other) in
    (s, to_s, rw one at to_s')

-- The merges end, and then the runs of two records with the same decision lead to one root.
pub components-Meet :
    (records : List Transition) (r t : Transition)
    → Memᴰ r records
    → Memᴰ t records
    → r.fingerprint ≡ t.fingerprint
    → (q : Parents) × (components records ≡ ok q) × Meet q r.run_id t.run_id
components-Meet records r t in_r in_t same =
    let (q, e, m) = components-Merges records in (q, e, Merges-Meet records q r t m in_r in_t same)
