-- ===== src/Data/WholeRuns/Groups.antt =====
-- The groups that `split_whole_runs` makes of the runs, against the root of each run.
use sts2_the_perfect_defect.Prelude.{
  ◌≡◌, refl, sym, String, true, none, some, arith, ◌==◌, string_eq, eq_iff, Bool-cases, inl, inr,
  ◌⊎◌, List, [], ◌∷◌, ◌++◌, All, All-append, ◌||◌, Option-cases,
}
use sts2_the_perfect_defect.Prelude.Table.{
  find, update, All-update, find-update, find-append, find-append_new, find-update_self, key-find,
  All-find,
}
use sts2_the_perfect_defect.Prelude.Keyed.{IsKeyed, append-IsKeyed, update-IsKeyed}
use sts2_the_perfect_defect.Data.WholeRuns.{Group, group_leader, grown, add_found, add_run}
use sts2_the_perfect_defect.Boundary.Texts.{named_in}

pub named_in-append :
    (v w : String) (vs : List String) → named_in v (vs ++ w ∷ []) ≡ (named_in v vs || w == v)
unfolding named_in
named_in-append v w [] = ground arith
named_in-append v w (x ∷ vs) = ground (arith, named_in-append v w vs)

one_named : (v : String) → named_in v (v ∷ []) ≡ true
unfolding named_in
one_named v = ground (arith, eq_iff v v)

last_named : (v : String) (vs : List String) → named_in v (vs ++ v ∷ []) ≡ true
last_named v vs = ground (arith, named_in-append v v vs, eq_iff v v)

last_cases :
    (w v : String) (vs : List String)
    → named_in w (vs ++ v ∷ []) ≡ true
    → (named_in w vs ≡ true) ⊎ (v ≡ w)
last_cases w v vs i = elim (Bool-cases (v == w)) [
  | inl e ↦ inr ((eq_iff v w).0 e)
  | inr e ↦ inl (ground (arith, named_in-append w v vs))
]

only_named : (w v : String) → named_in w (v ∷ []) ≡ true → v ≡ w
unfolding named_in
only_named w v i = (eq_iff v w).0 (ground arith)

-- The group of this root holds the run.
abbrev pub Holds : List Group → String → String → Type 0
Holds gs r v = (g : Group) × (find group_leader r gs ≡ some g) × (named_in v g.members ≡ true)

module _ (r run : String) (gs : List Group) where
  abbrev alone : Group
  alone = record { leader = r; members = run ∷ [] }

  fresh : find group_leader r gs ≡ none → add_run r run gs ≡ gs ++ alone ∷ []
  unfolding add_found
  fresh h = rw h refl

  known :
      (g : Group)
      → find group_leader r gs ≡ some g
      → add_run r run gs ≡ update group_leader r (grown run) gs
  unfolding add_found
  known g h = rw h refl

  add_run-All :
      (P : Group → Type 0)
      → P alone
      → ((g : Group) → find group_leader r gs ≡ some g → P (grown run g))
      → All P gs
      → All P (add_run r run gs)
  add_run-All P new old a = elim (Option-cases (find group_leader r gs)) [
    | inl h ↦ rw (fresh h) (All-append P gs (alone ∷ []) a (new, tt))
    | inr (g, h) ↦ rw (known g h) (All-update group_leader P r (grown run) gs a old)
  ]

  add_run-IsKeyed : IsKeyed group_leader gs → IsKeyed group_leader (add_run r run gs)
  add_run-IsKeyed keyed = elim (Option-cases (find group_leader r gs)) [
    | inl h ↦ rw (fresh h) (append-IsKeyed group_leader gs alone h keyed)
    | inr (g, h) ↦ rw (known g h) (update-IsKeyed group_leader r (grown run) gs (λ g _. refl) keyed)
  ]

  add_run-Holds : Holds (add_run r run gs) r run
  add_run-Holds = elim (Option-cases (find group_leader r gs)) [
    | inl h ↦ rw (fresh h) (alone, find-append_new group_leader alone gs h, one_named run)
    | inr (g, h) ↦ rw (known g h) (
      grown run g,
      find-update_self group_leader r (grown run) gs g (λ g. refl) h,
      last_named run g.members,
    )
  ]

  still-Holds : (s w : String) → Holds gs s w → Holds (add_run r run gs) s w
  still-Holds s w (g, found, h) = elim (Option-cases (find group_leader r gs)) [
    | inl e ↦
        let there = find-append group_leader s alone gs in rw (fresh e) (g, rw found at there, h)
    | inr (g', e) ↦
        let there = find-update group_leader r s (grown run) gs (λ x. refl) in
        rw (known g' e) (elim (Bool-cases (r == s)) [
          | inl i ↦
              let same = (eq_iff r s).0 i in
              rw (← same) (
                grown run g,
                find-update_self group_leader r (grown run) gs g (λ x. refl) (rw (← same) at found),
                ground (arith, h, named_in-append w run g.members),
              )
          | inr i ↦ (g, rw (i, found) at there, h)
        ])
  ]

-- The loop over the runs, by the root of each
unfoldable pub collect : (String → String) → List String → List Group → List Group
collect top [] gs = gs
collect top (v ∷ vs) gs = collect top vs (add_run (top v) v gs)

-- What a group holds: runs of this list that lead to its root, and one at least.
pub record IsGroup (top : String → String) (names : List String) (g : Group) : Type 0 where
  pub led : (w : String) → named_in w g.members ≡ true → top w ≡ g.leader
  pub named : (w : String) → named_in w g.members ≡ true → named_in w names ≡ true
  pub inhabited : (w : String) × (named_in w g.members ≡ true)

module _ (top : String → String) (names : List String) where
  pub collect-IsKeyed :
      (vs : List String) (gs : List Group)
      → IsKeyed group_leader gs
      → IsKeyed group_leader (collect top vs gs)
  unfolding collect
  collect-IsKeyed [] gs k = k
  collect-IsKeyed (v ∷ vs) gs k =
      collect-IsKeyed vs (add_run (top v) v gs) (add_run-IsKeyed (top v) v gs k)

  grown-IsGroup :
      (v : String) (g : Group)
      → named_in v names ≡ true
      → g.leader ≡ top v
      → IsGroup top names g
      → IsGroup top names (grown v g)
  grown-IsGroup v g n e h = record {
    led = λ w i. elim (last_cases w v g.members i) [
      | inl k ↦ h.led w k
      | inr same ↦ rw (← same) (sym e)
    ];
    named =
        λ w i. elim (last_cases w v g.members i) [ inl k ↦ h.named w k | inr same ↦ rw (← same) n ];
    inhabited = (v, last_named v g.members);
  }

  alone-IsGroup :
      (v : String)
      → named_in v names ≡ true
      → IsGroup top names (record { leader = top v; members = v ∷ [] })
  alone-IsGroup v n = record {
    led = λ w i. let same = only_named w v i in rw same refl;
    named = λ w i. let same = only_named w v i in rw (← same) n;
    inhabited = (v, one_named v);
  }

  pub collect-All :
      (vs : List String) (gs : List Group)
      → ((w : String) → named_in w vs ≡ true → named_in w names ≡ true)
      → All (IsGroup top names) gs
      → All (IsGroup top names) (collect top vs gs)
  unfolding collect named_in
  collect-All [] gs sub a = a
  collect-All (v ∷ vs) gs sub a =
      let n = sub v (ground (arith, eq_iff v v)) in
      collect-All vs (add_run (top v) v gs) (λ w i. sub w (ground arith))
        (add_run-All (top v) v gs (IsGroup top names) (alone-IsGroup v n)
          (λ g e.
            grown-IsGroup v g n (key-find group_leader (top v) gs g e)
              (All-find group_leader (IsGroup top names) (top v) gs g a e))
          a)

  collect-still :
      (vs : List String) (gs : List Group) (s w : String)
      → Holds gs s w
      → Holds (collect top vs gs) s w
  unfolding collect
  collect-still [] gs s w h = h
  collect-still (v ∷ vs) gs s w h =
      collect-still vs (add_run (top v) v gs) s w (still-Holds (top v) v gs s w h)

  pub collect-Holds :
      (vs : List String) (gs : List Group) (w : String)
      → named_in w vs ≡ true
      → Holds (collect top vs gs) (top w) w
  unfolding collect named_in
  collect-Holds [] gs w i = absurd (ground arith)
  collect-Holds (v ∷ vs) gs w i = elim (Bool-cases (v == w)) [
    | inl e ↦
        let same = (eq_iff v w).0 e in
        rw same (collect-still vs (add_run (top w) w gs) (top w) w (add_run-Holds (top w) w gs))
    | inr e ↦ collect-Holds vs (add_run (top v) v gs) w (rw e at i)
  ]
