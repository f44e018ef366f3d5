-- ===== src/FullRun/Gathering.antt =====
-- What the loop of `admit` of stpd/fullrun/data.py gathers and sorts, record by record.
use mathlib.Core.List.{Memᴰ}
use sts2_the_perfect_defect.Prelude.{
  ◌≡◌, ◌⊎◌, refl, sym, ap, ◌∙◌, String, true, some, arith, Bool-cases, inl, inr, List, [], ◌∷◌,
  ◌++◌, ◌==◌, string_eq,
}
use sts2_the_perfect_defect.Prelude.Result.{
  Ensures, Ensures-ok, Ensures-guard, Ensures-bind, Ensures-match,
}
use sts2_the_perfect_defect.Prelude.Table.{find}
use sts2_the_perfect_defect.Boundary.Json.{json_beq_iff, json_eq}
use sts2_the_perfect_defect.Contracts.Runtime.{Runtime}
use sts2_the_perfect_defect.FullRun.Transition.{
  ResearchTransition, rank_eligible, transition_id, transition_to_dict,
}
use sts2_the_perfect_defect.FullRun.Admission.{
  SourceProjection, Intake, take_record, take_records, take_projections, insert_record,
  sort_records, comes_before,
}

module _ {A : Type 0} where
  member_left : (x : A) (t u : List A) → Memᴰ x t → Memᴰ x (t ++ u)
  member_left x [] u m = elim m [ ]
  member_left x (y ∷ t) u (Memᴰ.head e) = Memᴰ.head e
  member_left x (y ∷ t) u (Memᴰ.tail m) = Memᴰ.tail (member_left x t u m)

  member_right : (x : A) (t u : List A) → Memᴰ x u → Memᴰ x (t ++ u)
  member_right x [] u m = m
  member_right x (y ∷ t) u m = Memᴰ.tail (member_right x t u m)

  member_split : (x : A) (t u : List A) → Memᴰ x (t ++ u) → Memᴰ x t ⊎ Memᴰ x u
  member_split x [] u m = inr m
  member_split x (y ∷ t) u (Memᴰ.head e) = inl (Memᴰ.head e)
  member_split x (y ∷ t) u (Memᴰ.tail m) = elim (member_split x t u m) [
    | inl i ↦ inl (Memᴰ.tail i)
    | inr i ↦ inr i
  ]

  only_member : (x y : A) → Memᴰ x (y ∷ []) → x ≡ y
  only_member x y (Memᴰ.head e) = e
  only_member x y (Memᴰ.tail m) = elim m [ ]

  under : (u r : A) (rs ss : List A) → (Memᴰ u rs → Memᴰ u ss) → Memᴰ u (r ∷ rs) → Memᴰ u (r ∷ ss)
  under u r rs ss f (Memᴰ.head e) = Memᴰ.head e
  under u r rs ss f (Memᴰ.tail m) = Memᴰ.tail (f m)

  module _ (u r s : A) (ss ins : List A) where
    later_in : (Memᴰ u ins → Memᴰ u (r ∷ ss)) → Memᴰ u (s ∷ ins) → Memᴰ u (r ∷ s ∷ ss)
    later_in f (Memᴰ.head e) = Memᴰ.tail (Memᴰ.head e)
    later_in f (Memᴰ.tail m) = past (f m)
      where
        past : Memᴰ u (r ∷ ss) → Memᴰ u (r ∷ s ∷ ss)
        past (Memᴰ.head e) = Memᴰ.head e
        past (Memᴰ.tail k) = Memᴰ.tail (Memᴰ.tail k)

    later_out : (Memᴰ u (r ∷ ss) → Memᴰ u ins) → Memᴰ u (r ∷ s ∷ ss) → Memᴰ u (s ∷ ins)
    later_out f (Memᴰ.head e) = Memᴰ.tail (f (Memᴰ.head e))
    later_out f (Memᴰ.tail (Memᴰ.head e)) = Memᴰ.head e
    later_out f (Memᴰ.tail (Memᴰ.tail m)) = Memᴰ.tail (f (Memᴰ.tail m))

  find-member :
      (key : A → String) (k : String) (t : List A) (x : A) → find key k t ≡ some x → Memᴰ x t
  unfolding find
  find-member key k [] x h = absurd (ground arith)
  find-member key k (y ∷ t) x h = elim (Bool-cases (key y == k)) [
    | inl e ↦ let same : y ≡ x = ground arith in Memᴰ.head (sym same)
    | inr e ↦ Memᴰ.tail (find-member key k t x (rw e at h))
  ]

abbrev pub gathered : List SourceProjection → List ResearchTransition
gathered [] = []
gathered (p ∷ ps) = p.transitions ++ gathered ps

module _ (rt : Runtime) where
  -- What the intake of records keeps, takes and holds
  pub record Takes (rs : List ResearchTransition) (n n' : Intake) : Type 0 where
    pub kept : (u : ResearchTransition) → Memᴰ u n.unique → Memᴰ u n'.unique
    pub took :
        (r : ResearchTransition)
        → Memᴰ r rs
        → (u : ResearchTransition) × Memᴰ u n'.unique
          × (transition_to_dict rt u ≡ transition_to_dict rt r)
    pub held :
        (u : ResearchTransition)
        → Memᴰ u n'.unique
        → Memᴰ u n.unique ⊎ (Memᴰ u rs × (rank_eligible u ≡ true))

  take_record-Takes :
      (r : ResearchTransition) (n : Intake) → Ensures (Takes (r ∷ []) n) (take_record rt r n)
  unfolding take_record
  take_record-Takes r n = Ensures-guard _ _ _ λ eligible. Ensures-bind _ _ λ f _.
      Ensures-match _ _ _
        (λ absent. Ensures-guard _ _ _ λ _. Ensures-ok _ (record {
          kept = λ u m. member_left u n.unique (r ∷ []) m;
          took = λ s m. (
            r,
            member_right r n.unique (r ∷ []) (Memᴰ.head refl),
            ap (transition_to_dict rt) (sym (only_member s r m)),
          );
          held = λ u m. elim (member_split u n.unique (r ∷ []) m) [
            | inl i ↦ inl i
            | inr i ↦ inr (i, ap rank_eligible (only_member u r i) ∙ eligible)
          ];
        }))
        (λ previous there. Ensures-guard _ _ _ λ same. Ensures-ok _ (record {
          kept = λ u m. m;
          took = λ s m. (
            previous,
            find-member (transition_id rt) (transition_id rt r) n.unique previous there,
            (json_beq_iff (transition_to_dict rt previous) (transition_to_dict rt r)).0 same
                ∙ ap (transition_to_dict rt) (sym (only_member s r m)),
          );
          held = λ u m. inl m;
        }))

  Takes-trans :
      (rs ss : List ResearchTransition) (n m k : Intake)
      → Takes rs n m
      → Takes ss m k
      → Takes (rs ++ ss) n k
  Takes-trans rs ss n m k x y = record {
    kept = λ u i. y.kept u (x.kept u i);
    took = λ r i. elim (member_split r rs ss i) [
      | inl j ↦ let (u, there, e) = x.took r j in (u, y.kept u there, e)
      | inr j ↦ y.took r j
    ];
    held = λ u i. elim (y.held u i) [
      | inl j ↦ elim (x.held u j) [
        | inl here ↦ inl here
        | inr (here, e) ↦ inr (member_left u rs ss here, e)
      ]
      | inr (here, e) ↦ inr (member_right u rs ss here, e)
    ];
  }

  Takes-refl : (n : Intake) → Takes [] n n
  Takes-refl n = record { kept = λ u m. m; took = λ r m. elim m [ ]; held = λ u m. inl m }

  take_records-Takes :
      (rs : List ResearchTransition) (n : Intake) → Ensures (Takes rs n) (take_records rt rs n)
  unfolding take_records
  take_records-Takes [] n = Ensures-ok _ (Takes-refl n)
  take_records-Takes (r ∷ rs) n = Ensures-bind _ _ λ m e. record {
    holds = λ k f.
        Takes-trans (r ∷ []) rs n m k ((take_record-Takes r n).holds m e)
          ((take_records-Takes rs m).holds k f);
  }

  pub take_projections-Takes :
      (ps : List SourceProjection) (n : Intake)
      → Ensures (Takes (gathered ps) n) (take_projections rt ps n)
  unfolding take_projections
  take_projections-Takes [] n = Ensures-ok _ (Takes-refl n)
  take_projections-Takes (p ∷ ps) n = Ensures-guard _ _ _ λ _. Ensures-bind _ _ λ m e. record {
    holds = λ k f.
        Takes-trans p.transitions (gathered ps) n m k
          ((take_records-Takes p.transitions n).holds m e)
          ((take_projections-Takes ps m).holds k f);
  }

  insert-member :
      (r u : ResearchTransition) (ss : List ResearchTransition)
      → (Memᴰ u (insert_record rt r ss) → Memᴰ u (r ∷ ss))
        × (Memᴰ u (r ∷ ss) → Memᴰ u (insert_record rt r ss))
  unfolding insert_record
  insert-member r u [] = (λ m. m, λ m. m)
  insert-member r u (s ∷ ss) = elim (Bool-cases (comes_before rt s r)) [
    | inl e ↦
        let (f, g) = insert-member r u ss in
        let ins = insert_record rt r ss in rw e (later_in u r s ss ins f, later_out u r s ss ins g)
    | inr e ↦ rw e (λ m. m, λ m. m)
  ]

  pub sort-member :
      (u : ResearchTransition) (rs : List ResearchTransition)
      → (Memᴰ u (sort_records rt rs) → Memᴰ u rs) × (Memᴰ u rs → Memᴰ u (sort_records rt rs))
  unfolding sort_records
  sort-member u [] = (λ m. m, λ m. m)
  sort-member u (r ∷ rs) =
      let (f, g) = insert-member r u (sort_records rt rs) in
      let (h, k) = sort-member u rs in
      (
        λ m. under u r (sort_records rt rs) rs h (f m),
        λ m. g (under u r rs (sort_records rt rs) k m),
      )
