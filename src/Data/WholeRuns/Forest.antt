-- ===== src/Data/WholeRuns/Forest.antt =====
-- The forest that the merges of runs build: where a run leads, and that nothing is led apart again.
use sts2_the_perfect_defect.Prelude.{
  ℕ, zero, suc, ◌<◌, ◌≡◌, refl, sym, ap, ◌∙◌, String, true, false, some, arith, ◌==◌, string_eq,
  eq_iff, if◌then◌else◌, Bool-cases, inl, inr, List,
}
use sts2_the_perfect_defect.Data.WholeRuns.Order.{rank}
use sts2_the_perfect_defect.Boundary.Texts.{named_in}
use sts2_the_perfect_defect.Data.WholeRuns.Components.{Parents, link}

pub some_same : {a b : String} → some a ≡ some b → a ≡ b
some_same h = cc

-- A run leads to the run at which the way along the parents ends.
pub data Leads (p : Parents) : String → String → Type 0 where
  stop : (v : String) → p v ≡ some v → Leads p v v
  step : (v u r : String) → p v ≡ some u → (u == v) ≡ false → Leads p u r → Leads p v r

pub Leads-root : (p : Parents) (v r : String) → Leads p v r → p r ≡ some r
Leads-root p v r (stop _ h) = h
Leads-root p v r (step _ u _ h ne l) = Leads-root p u r l

pub Leads-unique : (p : Parents) (v r s : String) → Leads p v r → Leads p v s → r ≡ s
Leads-unique p v r s (stop _ h) (stop _ k) = refl
Leads-unique p v r s (stop _ h) (step _ u _ k ne l) = absurd (ground (arith, eq_iff u v))
Leads-unique p v r s (step _ u _ h ne l) (stop _ k) = absurd (ground (arith, eq_iff u v))
Leads-unique p v r s (step _ u _ h ne l) (step _ w _ k ne' m) =
    let same : w ≡ u = ground arith in Leads-unique p u r s l (rw same at m)

-- Parents come before their children, and are runs themselves.
pub record IsForest (names : List String) (p : Parents) : Type 0 where
  pub descends : (v u : String) → p v ≡ some u → (u == v) ≡ false → rank names u < rank names v
  pub named : (v u : String) → p v ≡ some u → named_in v names ≡ true
  pub closed : (v u : String) → p v ≡ some u → (z : String) × (p u ≡ some z)

abbrev pub Extends : Parents → Parents → Type 0
Extends p q = (v u : String) → p v ≡ some u → (z : String) × (q v ≡ some z)

module _ (names : List String) (p : Parents) (f : IsForest names p) where
  pub Leads-exists :
      (n : ℕ) (v u : String) → p v ≡ some u → rank names v < n → (r : String) × Leads p v r
  Leads-exists zero v u h b = absurd (omega (arith, b))
  Leads-exists (suc n) v u h b = elim (Bool-cases (u == v)) [
    | inl e ↦ let same = (eq_iff u v).0 e in (v, stop v (rw same at h))
    | inr e ↦
        let (z, k) = f.closed v u h in
        let down = f.descends v u h e in
        let (r, l) = Leads-exists n u z k (omega (arith, b, down)) in (r, step v u r h e l)
  ]

  -- Halving a path: a run is given the parent of its parent.
  module _ (v u g : String) (h : p v ≡ some u) (ne : (u == v) ≡ false) (k : p u ≡ some g) where
    pub below : rank names g < rank names v
    below =
        let down = f.descends v u h ne in
        elim (Bool-cases (g == u)) [
          | inl e ↦ let same = (eq_iff g u).0 e in rw same down
          | inr e ↦ omega (arith, f.descends u g k e, down)
        ]

    apart : (g == v) ≡ false
    apart = elim (Bool-cases (g == v)) [
      | inl e ↦ let same = (eq_iff g v).0 e in absurd (omega (arith, rw same at below))
      | inr e ↦ e
    ]

    pub halve-IsForest : IsForest names (link v g p)
    halve-IsForest = record {
      descends = λ a b e d. elim (Bool-cases (a == v)) [
        | inl i ↦
            let same = (eq_iff a v).0 i in
            let to_g : g ≡ b = ground arith in rw (same, ← to_g) below
        | inr i ↦ f.descends a b (rw i at e) d
      ];
      named = λ a b e. elim (Bool-cases (a == v)) [
        | inl i ↦ let same = (eq_iff a v).0 i in rw same (f.named v u h)
        | inr i ↦ f.named a b (rw i at e)
      ];
      closed = λ a b e. elim (Bool-cases (b == v)) [
        | inl i ↦ (g, rw i)
        | inr i ↦ rw i (elim (Bool-cases (a == v)) [
          | inl j ↦ let to_g : g ≡ b = ground arith in rw (← to_g) (f.closed u g k)
          | inr j ↦ f.closed a b (rw j at e)
        ])
      ];
    }

    pub halve-Extends : Extends p (link v g p)
    halve-Extends a b e = elim (Bool-cases (a == v)) [ inl i ↦ (g, rw i) | inr i ↦ (b, rw i e) ]

    halve_stop : (w : String) → p w ≡ some w → Leads (link v g p) w w
    halve_stop w e = elim (Bool-cases (w == v)) [
      | inl i ↦ absurd (ground (arith, eq_iff w v, eq_iff u v))
      | inr i ↦ stop w (rw i e)
    ]

    -- Where a run leads to, so it does afterwards, and so does its parent.
    halve_both :
        (w s : String)
        → Leads p w s
        → Leads (link v g p) w s × ((y : String) → p w ≡ some y → Leads (link v g p) y s)
    halve_both w s (stop _ e) = (
      halve_stop w e,
      λ y k. let same : w ≡ y = some_same (sym e ∙ k) in rw (← same) (halve_stop w e),
    )
    halve_both w s (step _ x _ e d l) =
        let (here, next) = halve_both x s l in
        (
          elim (Bool-cases (w == v)) [
            | inl i ↦
                let w-v = (eq_iff w v).0 i in
                let x-u : x ≡ u = some_same (sym e ∙ ap p w-v ∙ h) in
                let other : (g == w) ≡ false = rw w-v apart in
                step w g s (rw i) other (next g (ap p x-u ∙ k))
            | inr i ↦ step w x s (rw i e) d here
          ],
          λ y k. let same : x ≡ y = some_same (sym e ∙ k) in rw (← same) here,
        )

    pub halve-Leads : (w s : String) → Leads p w s → Leads (link v g p) w s
    halve-Leads w s l = (halve_both w s l).0

  -- Joining two roots: the later one is given the earlier one as its parent.
  module _ (a b : String) (ha : p a ≡ some a) (hb : p b ≡ some b)
      (down : rank names a < rank names b) where
    distinct : (a == b) ≡ false
    distinct = elim (Bool-cases (a == b)) [
      | inl e ↦ let same = (eq_iff a b).0 e in absurd (omega (arith, rw same at down))
      | inr e ↦ e
    ]

    pub join-IsForest : IsForest names (link b a p)
    join-IsForest = record {
      descends = λ v u e d. elim (Bool-cases (v == b)) [
        | inl i ↦
            let same = (eq_iff v b).0 i in
            let to_a : a ≡ u = some_same (rw i at e) in rw (same, ← to_a) down
        | inr i ↦ f.descends v u (rw i at e) d
      ];
      named = λ v u e. elim (Bool-cases (v == b)) [
        | inl i ↦ let same = (eq_iff v b).0 i in rw same (f.named b b hb)
        | inr i ↦ f.named v u (rw i at e)
      ];
      closed = λ v u e. elim (Bool-cases (u == b)) [
        | inl i ↦ (a, rw i)
        | inr i ↦ rw i (elim (Bool-cases (v == b)) [
          | inl j ↦ let to_a : a ≡ u = some_same (rw j at e) in (a, ap p (sym to_a) ∙ ha)
          | inr j ↦ f.closed v u (rw j at e)
        ])
      ];
    }

    pub join-Extends : Extends p (link b a p)
    join-Extends v u e = elim (Bool-cases (v == b)) [ inl i ↦ (a, rw i) | inr i ↦ (u, rw i e) ]

    abbrev pub moved : String → String
    moved s = if s == b then a else s

    pub join-Leads : (w s : String) → Leads p w s → Leads (link b a p) w (moved s)
    join-Leads w s (stop _ e) = elim (Bool-cases (w == b)) [
      | inl i ↦
          let same = (eq_iff w b).0 i in
          rw i (step w a a (rw i) (rw same distinct) (stop a (rw distinct ha)))
      | inr i ↦ rw i (stop w (rw i e))
    ]
    join-Leads w s (step _ x _ e d l) = elim (Bool-cases (w == b)) [
      | inl i ↦
          let w-b = (eq_iff w b).0 i in
          let x-b : x ≡ b = some_same (sym e ∙ ap p w-b ∙ hb) in absurd (ground (arith, eq_iff x w))
      | inr i ↦ step w x (moved s) (rw i e) d (join-Leads x s l)
    ]
