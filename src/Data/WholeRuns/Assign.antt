-- ===== src/Data/WholeRuns/Assign.antt =====
-- The order of the components and the assignment of their runs: what two runs have in common, and
-- that no partition stays empty.
use sts2_the_perfect_defect.Prelude.{
  ℕ, zero, suc, ◌+◌, ◌<◌, ◌≡◌, refl, sym, ap, ◌∙◌, String, Bool, true, false, some, arith, ◌||◌,
  ◌==◌, string_eq, eq_iff, Bool-cases, inl, inr, List, [], ◌∷◌, All, length, if◌then◌else◌,
}
use sts2_the_perfect_defect.Prelude.Table.{find}
use sts2_the_perfect_defect.Contracts.Runtime.{Runtime}
use sts2_the_perfect_defect.Data.Splits.{SplitName}
use sts2_the_perfect_defect.Data.WholeRuns.{
  Group, group_leader, Assignments, assign_runs, assign_groups, group_key, insert_group,
  sort_groups,
}
use sts2_the_perfect_defect.Boundary.Texts.{named_in, less}
use sts2_the_perfect_defect.Data.WholeRuns.Groups.{IsGroup, Holds}

-- Two groups that share no run
abbrev pub Apart : Group → Group → Type 0
Apart g h = (w : String) → named_in w g.members ≡ true → named_in w h.members ≡ false

abbrev pub AreApart : List Group → Type 0
AreApart [] = Unit
AreApart (g ∷ gs) = All (Apart g) gs × AreApart gs

Apart-sym : (g h : Group) → Apart g h → Apart h g
Apart-sym g h a w i = elim (Bool-cases (named_in w g.members)) [
  | inl e ↦ absurd (ground (arith, a w e))
  | inr e ↦ e
]

-- A group holds the run.
unfoldable pub is_held : String → List Group → Bool
is_held v [] = false
is_held v (g ∷ gs) = named_in v g.members || is_held v gs

pub Holds-is_held : (gs : List Group) (r v : String) → Holds gs r v → is_held v gs ≡ true
unfolding is_held find
Holds-is_held [] r v (g, found, h) = absurd (ground arith)
Holds-is_held (x ∷ gs) r v (g, found, h) = elim (Bool-cases (group_leader x == r)) [
  | inl e ↦ let same : x ≡ g = ground arith in rw (same, h) refl
  | inr e ↦ ground (arith, Holds-is_held gs r v (g, rw e at found, h))
]

-- A test that two runs pass or fail alike
abbrev pub Alike : String → String → Group → Type 0
Alike v w g = named_in v g.members ≡ named_in w g.members

module _ (rt : Runtime) (seed : ℕ) where
  insert-All :
      (P : Group → Type 0) (g : Group) (hs : List Group)
      → P g
      → All P hs
      → All P (insert_group rt seed g hs)
  unfolding insert_group
  insert-All P g [] p a = (p, tt)
  insert-All P g (h ∷ hs) p a =
      elim (Bool-cases (less (group_key rt seed h) (group_key rt seed g))) [
        | inl e ↦ rw e (a.0, insert-All P g hs p a.1)
        | inr e ↦ rw e (p, a)
      ]

  pub sort-All : (P : Group → Type 0) (gs : List Group) → All P gs → All P (sort_groups rt seed gs)
  unfolding sort_groups
  sort-All P [] a = tt
  sort-All P (g ∷ gs) a = insert-All P g (sort_groups rt seed gs) a.0 (sort-All P gs a.1)

  insert-AreApart :
      (g : Group) (hs : List Group)
      → All (Apart g) hs
      → AreApart hs
      → AreApart (insert_group rt seed g hs)
  unfolding insert_group
  insert-AreApart g [] a p = (tt, tt)
  insert-AreApart g (h ∷ hs) a p =
      elim (Bool-cases (less (group_key rt seed h) (group_key rt seed g))) [
        | inl e ↦
            rw e (insert-All (Apart h) g hs (Apart-sym g h a.0) p.0, insert-AreApart g hs a.1 p.1)
        | inr e ↦ rw e (a, p)
      ]

  pub sort-AreApart : (gs : List Group) → AreApart gs → AreApart (sort_groups rt seed gs)
  unfolding sort_groups
  sort-AreApart [] p = tt
  sort-AreApart (g ∷ gs) p =
      insert-AreApart g (sort_groups rt seed gs) (sort-All (Apart g) gs p.0) (sort-AreApart gs p.1)

  insert-is_held :
      (v : String) (g : Group) (hs : List Group)
      → is_held v (insert_group rt seed g hs) ≡ (named_in v g.members || is_held v hs)
  unfolding insert_group is_held
  insert-is_held v g [] = refl
  insert-is_held v g (h ∷ hs) = ground (arith, insert-is_held v g hs)

  pub sort-is_held :
      (v : String) (gs : List Group) → is_held v (sort_groups rt seed gs) ≡ is_held v gs
  unfolding sort_groups is_held
  sort-is_held v [] = refl
  sort-is_held v (g ∷ gs) =
      insert-is_held v g (sort_groups rt seed gs) ∙ rw (sort-is_held v gs) refl

assign_runs-get :
    (s : SplitName) (vs : List String) (m : Assignments) (v : String)
    → assign_runs s vs m v ≡ (if named_in v vs then some s else m v)
unfolding assign_runs named_in
assign_runs-get s [] m v = refl
assign_runs-get s (x ∷ vs) m v =
    let rest = assign_runs-get s vs (λ w. if w == x then some s else m w) v in
    ground (arith, rest, eq_iff v x, eq_iff x v)

module _ (part : ℕ → SplitName) where
  pub assign-Alike :
      (i : ℕ) (gs : List Group) (m : Assignments) (v w : String)
      → All (Alike v w) gs
      → m v ≡ m w
      → assign_groups part i gs m v ≡ assign_groups part i gs m w
  unfolding assign_groups
  assign-Alike i [] m v w a h = h
  assign-Alike i (g ∷ gs) m v w a h =
      assign-Alike (suc i) gs (assign_runs (part i) g.members m) v w a.1 (
        assign_runs-get (part i) g.members m v
        ∙ (rw (a.0, h) refl ∙ sym (assign_runs-get (part i) g.members m w)))

  assign-away :
      (i : ℕ) (gs : List Group) (m : Assignments) (v : String)
      → All (λ (g : Group). named_in v g.members ≡ false) gs
      → assign_groups part i gs m v ≡ m v
  unfolding assign_groups
  assign-away i [] m v a = refl
  assign-away i (g ∷ gs) m v a =
      assign-away (suc i) gs (assign_runs (part i) g.members m) v a.1
      ∙ (assign_runs-get (part i) g.members m v ∙ rw a.0 refl)

  abbrev Assigned : Assignments → String → Type 0
  Assigned m v = (s : SplitName) × (m v ≡ some s)

  assign-kept :
      (i : ℕ) (gs : List Group) (m : Assignments) (v : String)
      → Assigned m v
      → Assigned (assign_groups part i gs m) v
  unfolding assign_groups
  assign-kept i [] m v h = h
  assign-kept i (g ∷ gs) m v (s, h) =
      let here = assign_runs-get (part i) g.members m v in
      assign-kept (suc i) gs (assign_runs (part i) g.members m) v
        (elim (Bool-cases (named_in v g.members)) [
          | inl e ↦ (part i, here ∙ rw e refl)
          | inr e ↦ (s, here ∙ rw e h)
        ])

  pub assign-is_held :
      (i : ℕ) (gs : List Group) (m : Assignments) (v : String)
      → is_held v gs ≡ true
      → Assigned (assign_groups part i gs m) v
  unfolding assign_groups is_held
  assign-is_held i [] m v h = absurd (ground arith)
  assign-is_held i (g ∷ gs) m v h =
      let m' = assign_runs (part i) g.members m in
      elim (Bool-cases (named_in v g.members)) [
        | inl e ↦
            assign-kept (suc i) gs m' v (part i, assign_runs-get (part i) g.members m v ∙ rw e refl)
        | inr e ↦ assign-is_held (suc i) gs m' v (rw e at h)
      ]

  -- Each component gives the partition of its place to one run at least, its own one.
  pub assign-nth :
      (top : String → String) (names : List String) (i n : ℕ) (gs : List Group) (m : Assignments)
      → n < length gs
      → All (IsGroup top names) gs
      → AreApart gs
      → (v : String) × (named_in v names ≡ true)
        × (assign_groups part i gs m v ≡ some (part (i + n)))
  unfolding assign_groups
  assign-nth top names i n [] m b a p = absurd (omega (arith, b))
  assign-nth top names i zero (g ∷ gs) m b a p =
      let (v, here) = a.0.inhabited in
      (
        v,
        a.0.named v here,
        assign-away (suc i) gs (assign_runs (part i) g.members m) v (apart_from v here gs p.0)
            ∙ (assign_runs-get (part i) g.members m v
                ∙ rw here (ap (λ k. some (part k)) (omega arith))),
      )
    where
      apart_from :
          (v : String)
          → named_in v g.members ≡ true
          → (hs : List Group) → All (Apart g) hs
          → All (λ (h : Group). named_in v h.members ≡ false) hs
      apart_from v i [] a = tt
      apart_from v i (h ∷ hs) a = (a.0 v i, apart_from v i hs a.1)
  assign-nth top names i (suc n) (g ∷ gs) m b a p =
      let (v, known, e) =
        assign-nth top names (suc i) n gs (assign_runs (part i) g.members m) (omega (arith, b)) a.1
          p.1 in
      (v, known, e ∙ ap (λ k. some (part k)) (omega arith))
