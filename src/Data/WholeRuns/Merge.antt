-- ===== src/Data/WholeRuns/Merge.antt =====
-- `root` finds where a run leads, and the merges keep together what shares a decision.
use sts2_the_perfect_defect.Prelude.{
  ℕ, zero, suc, ◌<◌, ◌≡◌, refl, sym, ◌∙◌, String, true, false, some, arith, ◌==◌, string_eq, eq_iff,
  if◌then◌else◌, Bool-cases, inl, inr, List,
}
use sts2_the_perfect_defect.Prelude.Result.{ok, ◌>>=◌}
use sts2_the_perfect_defect.Data.WholeRuns.Order.{rank, rank-less}
use sts2_the_perfect_defect.Data.WholeRuns.Components.{Parents, link, root, joined}
use sts2_the_perfect_defect.Data.WholeRuns.Forest.{
  Leads, stop, step, Leads-unique, IsForest, Extends, Leads-exists, below, halve-IsForest,
  halve-Extends, halve-Leads, join-IsForest, join-Extends, join-Leads, some_same,
}
use sts2_the_perfect_defect.Boundary.Texts.{less, less_asym, less_total}

-- What a search for a root answers, and what it does to the forest
pub record Found (names : List String) (p : Parents) (v r : String) (q : Parents) : Type 0 where
  pub leads : Leads q v r
  pub forest : IsForest names q
  pub extends : Extends p q
  pub keeps : (w s : String) → Leads p w s → Leads q w s

next-Leads : (p : Parents) (v u s : String) → p v ≡ some u → Leads p v s → Leads p u s
next-Leads p v u s h (stop _ k) = let same : v ≡ u = some_same (sym k ∙ h) in rw (← same) (stop v k)
next-Leads p v u s h (step _ w _ k ne l) = let same : w ≡ u = some_same (sym k ∙ h) in rw (← same) l

through :
    (p : Parents) (v u g s : String)
    → p v ≡ some u
    → (u == v) ≡ false
    → p u ≡ some g
    → Leads p v s
    → Leads p g s
through p v u g s h ne k l = next-Leads p u g s k (next-Leads p v u s h l)

module _ (names : List String) where
  root_at_root :
      (n : ℕ) (p : Parents) (v u : String)
      → p v ≡ some u
      → (u == v) ≡ true
      → root (suc n) p v ≡ ok (v, p)
  unfolding root ◌>>=◌
  root_at_root n p v u h e = rw (h, e) refl

  root_below :
      (n : ℕ) (p : Parents) (v u g : String)
      → p v ≡ some u
      → (u == v) ≡ false
      → p u ≡ some g
      → root (suc n) p v ≡ root n (link v g p) g
  unfolding root ◌>>=◌
  root_below n p v u g h e k = rw (h, e, k) refl

  pub root-Found :
      (n : ℕ) (p : Parents) (v u : String)
      → IsForest names p
      → p v ≡ some u
      → rank names v < n
      → (r : String) × (q : Parents) × (root n p v ≡ ok (r, q)) × Found names p v r q
  root-Found zero p v u f h b = absurd (omega (arith, b))
  root-Found (suc n) p v u f h b = elim (Bool-cases (u == v)) [
    | inl e ↦
        let same = (eq_iff u v).0 e in
        (
          v,
          p,
          root_at_root n p v u h e,
          record {
            leads = stop v (rw same at h);
            forest = f;
            extends = λ w x k. (x, k);
            keeps = λ w s l. l;
          },
        )
    | inr e ↦
        let (g, k) = f.closed v u h in
        let (z, k2) = f.closed u g k in
        let lower = below names p f v u g h e k in
        let p' = link v g p in
        let (z', k') = halve-Extends names p f v u g h e k g z k2 in
        let (r, q, answer, found) =
          root-Found n p' g z' (halve-IsForest names p f v u g h e k) k'
            (omega (arith, lower, b)) in
        let halved = halve-Leads names p f v u g h e k in
        let (s, to_s) = Leads-exists names p f (suc n) v u h b in
        let grand = through p v u g s h e k to_s in
        let same : s ≡ r = Leads-unique q g s r (found.keeps g s (halved g s grand)) found.leads in
        (
          r,
          q,
          root_below n p v u g h e k ∙ answer,
          record {
            leads = rw (← same) (found.keeps v s (halved v s to_s));
            forest = found.forest;
            extends = λ w x d.
                let (y, d') = halve-Extends names p f v u g h e k w x d in found.extends w y d';
            keeps = λ w t l. found.keeps w t (halved w t l);
          },
        )
  ]

-- A forest that grew out of another one: what led to one root does so still.
pub record Grows (names : List String) (p q : Parents) : Type 0 where
  pub forest : IsForest names q
  pub extends : Extends p q
  pub moves : String → String
  pub keeps : (w s : String) → Leads p w s → Leads q w (moves s)

abbrev pub grows_twice :
    (names : List String) (p q r : Parents) → Grows names p q → Grows names q r → Grows names p r
grows_twice names p q r g h = record {
  forest = h.forest;
  extends = λ v u e. let (x, e') = g.extends v u e in h.extends v x e';
  moves = λ s. h.moves (g.moves s);
  keeps = λ w s l. h.keeps w (g.moves s) (g.keeps w s l);
}

one_root : (a b : String) → (if a == b then a else a) ≡ (if b == b then a else b)
one_root a b =
    let same = (eq_iff b b).1 refl in
    elim (Bool-cases (a == b)) [ inl e ↦ rw (e, same) refl | inr e ↦ rw (e, same) refl ]

later : (l r : String) → less l r ≡ false → (l == r) ≡ false → less r l ≡ true
later l r h ne = elim (Bool-cases (less r l)) [
  | inl e ↦ e
  | inr e ↦ let equal = (eq_iff l r).1 (less_total l r h e) in absurd (ground (arith, equal))
]

module _ (names : List String) (p : Parents) (f : IsForest names p) where
  -- Two roots that are joined are one root from then on.
  abbrev pub Joins : String → String → Parents → Type 0
  Joins l r q = (g : Grows names p q) × (g.moves l ≡ g.moves r)

  join_below :
      (a b : String)
      → p a ≡ some a
      → p b ≡ some b
      → less a b ≡ true
      → Joins a b (link b a p) × Joins b a (link b a p)
  join_below a b ha hb h =
      let down = rank-less names a b (f.named a a ha) h in
      let g : Grows names p (link b a p) = record {
        forest = join-IsForest names p f a b ha hb down;
        extends = join-Extends names p f a b ha hb down;
        moves = λ s. if s == b then a else s;
        keeps = join-Leads names p f a b ha hb down;
      } in
      let one : g.moves a ≡ g.moves b = one_root a b in ((g, one), (g, sym one))

  pub joined-Joins : (l r : String) → p l ≡ some l → p r ≡ some r → Joins l r (joined l r p)
  joined-Joins l r hl hr = elim (Bool-cases (l == r)) [
    | inl e ↦ rw e (
      record { forest = f; extends = λ v u k. (u, k); moves = λ s. s; keeps = λ w s k. k },
      (eq_iff l r).0 e,
    )
    | inr e ↦ elim (Bool-cases (less l r)) [
      | inl i ↦
          let (j, _) = join_below l r hl hr i in
          let back : less r l ≡ false = less_asym l r i in rw (e, i, back) j
      | inr i ↦
          let back : less r l ≡ true = later l r i e in
          let (_, j) = join_below r l hr hl back in rw (e, i, back) j
    ]
  ]
