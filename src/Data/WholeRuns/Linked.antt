-- ===== src/Data/WholeRuns/Linked.antt =====
-- What the merges of runs mean: the components of the runs that share decisions.
use mathlib.Core.List.{Memᴰ}
use sts2_the_perfect_defect.Prelude.{
  ℕ, zero, suc, ◌≡◌, ◌↔◌, Option-cases, refl, sym, ◌∙◌, String, none, some, ◌==◌, string_eq, eq_iff,
  Bool-cases, inl, inr, List, [], ◌∷◌, length,
}
use sts2_the_perfect_defect.Prelude.Result.{
  ok, Ensures, Ensures-ok, Ensures-err, Ensures-expect, Ensures-branch, Ensures-bind,
}
use sts2_the_perfect_defect.Boundary.Texts.{less, less_asym}
use sts2_the_perfect_defect.Data.WholeRuns.{
  Parents, Transition, link, root, joined, larger, smaller, own, runs, previous_of, merge_all,
  components,
}
use sts2_the_perfect_defect.Data.WholeRuns.Forest.{some_same, Leads, stop, step, Leads-unique}
use sts2_the_perfect_defect.Data.WholeRuns.Merges.{Meet, Merges}
use sts2_the_perfect_defect.Data.WholeRuns.Together.{components-Merges, Merges-Meet, own_parent}
use sts2_the_perfect_defect.Data.WholeRuns.Grouped.{record_of}

module _ (records : List Transition) where
  -- A chain of records leads from one run to the other, each with the run or the decision of the next.
  pub data Linked : String → String → Type 0 where
    shares :
        (r t : Transition)
        → Memᴰ r records
        → Memᴰ t records
        → r.fingerprint ≡ t.fingerprint
        → Linked r.run_id t.run_id
    back : {a b : String} → Linked a b → Linked b a
    via : {a b c : String} → Linked a b → Linked b c → Linked a c

  -- Parents are linked to their children.
  abbrev AreLinked : Parents → Type 0
  AreLinked p = (v u : String) → p v ≡ some u → Linked v u

  abbrev FirstsOf : Parents → Type 0
  FirstsOf first =
      (k f : String)
      → first k ≡ some f
      → (t : Transition) × Memᴰ t records × (t.run_id ≡ f) × (t.fingerprint ≡ k)

  link-AreLinked : (v g : String) (p : Parents) → Linked v g → AreLinked p → AreLinked (link v g p)
  link-AreLinked v g p l a w u h = elim (Bool-cases (w == v)) [
    | inl e ↦
        let same = (eq_iff w v).0 e in
        let to_g : g ≡ u = some_same (rw e at h) in rw (same, ← to_g) l
    | inr e ↦ a w u (rw e at h)
  ]

  root-Linked :
      (n : ℕ) (p : Parents) (v : String)
      → AreLinked p
      → Ensures (λ (a : String × Parents). Linked v a.0 × AreLinked a.1) (root n p v)
  unfolding root
  root-Linked zero p v a = Ensures-err _
  root-Linked (suc n) p v a = Ensures-expect _ _ _ λ u h.
      Ensures-branch _ _ _
        (λ e. let same = (eq_iff u v).0 e in Ensures-ok _ (a v v (rw same at h), a))
        (λ e. Ensures-expect _ _ _ λ g k. record {
          holds = λ x f.
              let on = via (a v u h) (a u g k) in
              let (l, b) = (root-Linked n (link v g p) g (link-AreLinked v g p on a)).holds x f in
              (via on l, b);
        })

  ordered : (l r : String) → Linked l r → Linked (larger l r) (smaller l r)
  ordered l r c = elim (Bool-cases (less l r)) [
    | inl i ↦ rw (i, less_asym l r i) (back c)
    | inr i ↦ elim (Bool-cases (less r l)) [
      | inl j ↦ rw (i, j) c
      | inr j ↦ rw (i, j) (via c (back c))
    ]
  ]

  joined-AreLinked :
      (l r : String) (p : Parents) → Linked l r → AreLinked p → AreLinked (joined l r p)
  joined-AreLinked l r p c a = elim (Bool-cases (l == r)) [
    | inl e ↦ rw e a
    | inr e ↦ rw e (link-AreLinked (larger l r) (smaller l r) p (ordered l r c) a)
  ]

  -- The run that a fingerprint stands for has a record of that fingerprint.
  previous-Linked :
      (first : Parents) (r : Transition)
      → FirstsOf first
      → Memᴰ r records
      → (t : Transition) × Memᴰ t records
        × (t.run_id ≡ previous_of (first r.fingerprint) r.run_id)
        × (t.fingerprint ≡ r.fingerprint)
  unfolding previous_of
  previous-Linked first r firsts m = elim (Option-cases (first r.fingerprint)) [
    | inl h ↦ (r, m, rw h refl, refl)
    | inr (f, h) ↦
        let (t, in_t, is_first, same) = firsts r.fingerprint f h in (t, in_t, rw h is_first, same)
  ]

  merge_all-Linked :
      (n : ℕ) (first : Parents) (rs : List Transition) (p : Parents)
      → ((r : Transition) → Memᴰ r rs → Memᴰ r records)
      → FirstsOf first
      → AreLinked p
      → Ensures AreLinked (merge_all n first rs p)
  unfolding merge_all
  merge_all-Linked n first [] p sub firsts a = Ensures-ok _ a
  merge_all-Linked n first (r ∷ rs) p sub firsts a =
      let previous = previous_of (first r.fingerprint) r.run_id in
      let here = sub r (Memᴰ.head refl) in
      let (t, in_t, is_previous, same) = previous-Linked first r firsts here in
      Ensures-bind _ _ λ (left, p1) e. Ensures-bind _ _ λ (right, p2) f.
        let (to_left, a1) = (root-Linked n p previous a).holds (left, p1) e in
        let (to_right, a2) = (root-Linked n p1 r.run_id a1).holds (right, p2) f in
        let shared : Linked previous r.run_id = rw (← is_previous) (shares t r in_t here same) in
        merge_all-Linked n (link r.fingerprint previous first) rs (joined left right p2)
          (λ s m. sub s (Memᴰ.tail m))
          (λ k g h. elim (Bool-cases (k == r.fingerprint)) [
            | inl i ↦ (
              t,
              in_t,
              is_previous ∙ some_same (rw i at h),
              same ∙ sym ((eq_iff k r.fingerprint).0 i),
            )
            | inr i ↦ firsts k g (rw i at h)
          ])
          (joined-AreLinked left right p2 (via (back to_left) (via shared to_right)) a2)

  Leads-Linked : (p : Parents) (v s : String) → AreLinked p → Leads p v s → Linked v s
  Leads-Linked p v s a (stop _ h) = a v v h
  Leads-Linked p v s a (step _ u _ h ne l) = via (a v u h) (Leads-Linked p u s a l)

  Linked-Meet :
      (q : Parents) (x : Merges (runs records) (λ k. none) records (own records) q) (a b : String)
      → Linked a b
      → Meet q a b
  Linked-Meet q x _ _ (shares r t m k same) = Merges-Meet records q r t x m k same
  Linked-Meet q x a b (back c) = let (s, to_s, from_s) = Linked-Meet q x b a c in (s, from_s, to_s)
  Linked-Meet q x a c (via {b = b} l m) =
      let (s, a_s, b_s) = Linked-Meet q x a b l in
      let (t, b_t, c_t) = Linked-Meet q x b c m in
      let same = Leads-unique q b t s b_t b_s in (s, a_s, rw same at c_t)

  own-AreLinked : AreLinked (own records)
  own-AreLinked v u h =
      let (named, itself) = own_parent records v u h in
      let (r, m, at_v) = record_of records v named in rw (← itself, ← at_v) (shares r r m m refl)

  -- The merges of any list of records end, and then two runs lead to one root exactly where a chain
  -- of records that share their run or their decision joins them.
  pub components-Linked :
      (a b : String) → (q : Parents) × (components records ≡ ok q) × (Meet q a b ↔ Linked a b)
  unfolding components
  components-Linked a b =
      let (q, e, x) = components-Merges records in
      let linked =
        (merge_all-Linked (length records) (λ k. none) records (own records) (λ r m. m)
            (λ k f h. cc) own-AreLinked).holds
          q e in
      (
        q,
        e,
        (
          λ (s, to_s, from_s).
              via (Leads-Linked q a s linked to_s) (back (Leads-Linked q b s linked from_s)),
          Linked-Meet q x a b,
        ),
      )
