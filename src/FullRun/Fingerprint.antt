-- ===== src/FullRun/Fingerprint.antt =====
-- The fingerprint of a decision does not depend on the order or the keys of its candidates.
use Prim.Native.String.{◌++◌ as join_text}
use mathlib.Core.Path.{subst}
use mathlib.Core.List.{Permᴰ}
use sts2_the_perfect_defect.Prelude.{
  ◌≡◌, refl, sym, ap, ◌∙◌, String, Bool, true, false, arith, not, Bool-cases, inl, inr, List, [],
  ◌∷◌, map,
}
use sts2_the_perfect_defect.Prelude.Result.{guard, Result, ok, err, ◌>>=◌, ◌>>◌}
use sts2_the_perfect_defect.Boundary.Json.{
  Json, Items, Fields, null, flag, num, other_number, str, obj, arr, end, field, nil, cons,
}
use sts2_the_perfect_defect.Contracts.Runtime.{Runtime}
use sts2_the_perfect_defect.FullRun.Semantic.{SemanticAction, semantic_dict}
use sts2_the_perfect_defect.FullRun.Transition.{ResearchTransition}
use sts2_the_perfect_defect.FullRun.Views.{
  leak, insert_text, reject_leakage, reject_fields, reject_items, is_leak, serialize_action,
  serialized, decision_fingerprint,
}
use sts2_the_perfect_defect.Boundary.Texts.{less, less_asym, less_total, less_trans}

-- Two texts in one order or the other, or one text twice
data Compared (x y : String) : Type 0 where
  first : less x y ≡ true → less y x ≡ false → Compared x y
  second : less x y ≡ false → less y x ≡ true → Compared x y
  same : x ≡ y → Compared x y

compared : (x y : String) → Compared x y
compared x y = elim (Bool-cases (less x y)) [
  | inl e ↦ first e (less_asym x y e)
  | inr e ↦ elim (Bool-cases (less y x)) [ inl f ↦ second e f | inr f ↦ same (less_total x y e f) ]
]

not_before : (x y n : String) → less x n ≡ true → less y n ≡ false → less y x ≡ false
not_before x y n h k = elim (Bool-cases (less y x)) [
  | inl e ↦ absurd (ground (arith, less_trans y x n e h))
  | inr e ↦ e
]

once :
    (x y : String) (s : List String)
    → x ≡ y
    → insert_text x (insert_text y s) ≡ insert_text y (insert_text x s)
once x y s e = subst (λ z. insert_text x (insert_text z s) ≡ insert_text z (insert_text x s)) e refl

insert_twice :
    (x y : String) (s : List String)
    → insert_text x (insert_text y s) ≡ insert_text y (insert_text x s)
unfolding insert_text
insert_twice x y [] = elim (compared x y) [
  | first e f ↦ rw (e, f) refl
  | second e f ↦ rw (e, f) refl
  | same e ↦ once x y [] e
]
insert_twice x y (n ∷ s) = elim (Bool-cases (less x n)) [
  | inl a ↦ elim (Bool-cases (less y n)) [
    | inl b ↦ elim (compared x y) [
      | first e f ↦ rw (a, b, e, f) refl
      | second e f ↦ rw (a, b, e, f) (rw a refl)
      | same e ↦ once x y (n ∷ s) e
    ]
    | inr b ↦ rw (a, b) (rw (a, not_before x y n a b) refl)
  ]
  | inr a ↦ elim (Bool-cases (less y n)) [
    | inl b ↦ rw (a, b) (rw (not_before y x n b a) (rw a refl))
    | inr b ↦ rw (a, b) (rw a (ap (λ t. n ∷ t) (insert_twice x y s)))
  ]
]

-- A check that passes, or raises that a feature is forbidden
data Screens {A : Type 0} : Result A → Type 0 where
  passes : (a : A) → Screens (ok a)
  raises : Screens (err leak)

Screens-bind :
    {A B : Type 0} (m : Result A) (f : A → Result B)
    → Screens m
    → ((a : A) → Screens (f a))
    → Screens (m >>= f)
unfolding ◌>>=◌
Screens-bind _ f (passes a) h = h a
Screens-bind _ f raises h = raises

Screens-guard : (b : Bool) → Screens (guard b leak)
unfolding ◌>>=◌
Screens-guard true = passes tt
Screens-guard false = raises

module _ (rt : Runtime) where
  mutual
    unfolding reject_leakage reject_fields reject_items ◌>>=◌

    reject_leakage-Screens : (j : Json) → Screens (reject_leakage rt j)
    reject_leakage-Screens (obj fs) = reject_fields-Screens fs
    reject_leakage-Screens (arr xs) = reject_items-Screens xs
    reject_leakage-Screens null = passes tt
    reject_leakage-Screens (flag b) = passes tt
    reject_leakage-Screens (num n) = passes tt
    reject_leakage-Screens (other_number n) = passes tt
    reject_leakage-Screens (str s) = passes tt

    reject_fields-Screens : (fs : Fields) → Screens (reject_fields rt fs)
    reject_fields-Screens end = passes tt
    reject_fields-Screens (field k v fs) =
        Screens-bind _ _ (Screens-guard (not (is_leak rt k)))
          λ _. Screens-bind _ _ (reject_leakage-Screens v) λ _. reject_fields-Screens fs

    reject_items-Screens : (xs : Items) → Screens (reject_items rt xs)
    reject_items-Screens nil = passes tt
    reject_items-Screens (cons v xs) =
        Screens-bind _ _ (reject_leakage-Screens v) λ _. reject_items-Screens xs

  -- The text of the semantic part of an action
  abbrev text_of : Json → Result String
  text_of j = do
    reject_leakage rt j
    ok (
        join_text "[STPD_ACTION version=stpd-fullrun-provisional-v1]\n"
          (join_text (rt.canonical_json j) "\n[/STPD_ACTION]"))

  text_of-Screens : (j : Json) → Screens (text_of j)
  text_of-Screens j = Screens-bind _ _ (reject_leakage-Screens j) λ _. passes _

  unfoldable texts_of : List Json → Result (List String)
  texts_of [] = ok []
  texts_of (j ∷ js) = do s ← text_of j; rest ← texts_of js; ok (insert_text s rest)

  serialized-texts_of :
      (as' : List SemanticAction) → serialized rt as' ≡ texts_of (map semantic_dict as')
  unfolding serialized serialize_action texts_of
  serialized-texts_of [] = refl
  serialized-texts_of (a ∷ as') = rw (serialized-texts_of as') refl

  texts_of-Screens : (js : List Json) → Screens (texts_of js)
  unfolding texts_of
  texts_of-Screens [] = passes []
  texts_of-Screens (j ∷ js) =
      Screens-bind _ _ (text_of-Screens j)
        λ s. Screens-bind _ _ (texts_of-Screens js) λ rest. passes _

  -- Two serialized texts are inserted in either order.
  swapped :
      (m n : Result String) (r : Result (List String))
      → Screens m
      → Screens n
      → Screens r
      → (m >>= λ s.
          (n >>= λ t. (r >>= λ rest. ok (insert_text t rest))) >>= λ rest. ok (insert_text s rest))
        ≡ (n >>= λ t. (m >>= λ s. (r >>= λ rest. ok (insert_text s rest))) >>= λ rest.
            ok (insert_text t rest))
  unfolding ◌>>=◌
  swapped _ _ _ (passes s) (passes t) (passes rest) = rw (insert_twice s t rest) refl
  swapped _ _ _ (passes s) (passes t) raises = refl
  swapped _ _ _ (passes s) raises x = refl
  swapped _ _ _ raises (passes t) (passes rest) = refl
  swapped _ _ _ raises (passes t) raises = refl
  swapped _ _ _ raises raises x = refl

  texts_of-Perm : (js ks : List Json) → Permᴰ js ks → texts_of js ≡ texts_of ks
  unfolding texts_of
  texts_of-Perm _ _ Permᴰ.nil = refl
  texts_of-Perm _ _ (Permᴰ.cons {a = a} {l₁ = js} {l₂ = ks} e p) =
      rw (← e) (rw (texts_of-Perm js ks p) refl)
  texts_of-Perm _ _ (Permᴰ.swap {a = a} {b = b} {l = l} e f) =
      rw (← e, ← f)
        (swapped (text_of a) (text_of b) (texts_of l) (text_of-Screens a) (text_of-Screens b)
          (texts_of-Screens l))
  texts_of-Perm _ _ (Permᴰ.trans {l₁ = js} {l₂ = ks} {l₃ = ls} p q) =
      texts_of-Perm js ks p ∙ texts_of-Perm ks ls q

  -- Two transitions with one state, whose candidates are the same up to their order and their keys,
  -- have one fingerprint, or raise the same error.
  pub decision_fingerprint-Perm :
      (t u : ResearchTransition)
      → t.state ≡ u.state
      → Permᴰ (map semantic_dict t.actions) (map semantic_dict u.actions)
      → decision_fingerprint rt t ≡ decision_fingerprint rt u
  unfolding decision_fingerprint
  decision_fingerprint-Perm t u one_state p =
      let listed : serialized rt t.actions ≡ serialized rt u.actions =
        serialized-texts_of t.actions
        ∙ (texts_of-Perm (map semantic_dict t.actions) (map semantic_dict u.actions) p
            ∙ sym (serialized-texts_of u.actions)) in
      rw (one_state, listed) refl
