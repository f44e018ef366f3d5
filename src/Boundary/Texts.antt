-- ===== src/Boundary/Texts.antt =====
-- Texts by their code points: equality of those, the order of SQLite and of Python, and sorted sets.
use text.Mathlib.TextEquality.{Char-path}
use sts2_the_perfect_defect.Prelude.{
  ℕ, ◌≡◌, refl, String, Bool, true, false, ◌||◌, ◌&&◌, List, [], ◌∷◌, ltb, arith, ◌==◌, string_eq,
  nat_eq, if◌then◌else◌, ◌++◌, All, Bool-cases, inl, inr, eq_iff, ◌∙◌,
}
use sts2_the_perfect_defect.Boundary.Checks.{codes}

unfoldable pub same_codes : List ℕ → List ℕ → Bool
same_codes [] [] = true
same_codes (a ∷ as') (b ∷ bs) = a == b && same_codes as' bs
same_codes _ _ = false

unfoldable pub before : List ℕ → List ℕ → Bool
before [] [] = false
before [] (b ∷ y) = true
before (a ∷ x) [] = false
before (a ∷ x) (b ∷ y) = ltb a b || (a == b && before x y)

abbrev pub less : String → String → Bool
less s t = before (codes s) (codes t)

unfoldable pub insert_once : String → List String → List String
insert_once v [] = v ∷ []
insert_once v (n ∷ ns) =
    let rest = insert_once v ns in
    if v == n then n ∷ ns else if less v n then v ∷ n ∷ ns else n ∷ rest

-- `sorted(set(...))`, and `ORDER BY` on a column that has no value twice
unfoldable pub sorted_set : List String → List String
sorted_set [] = []
sorted_set (v ∷ vs) = insert_once v (sorted_set vs)

unfoldable pub named_in : String → List String → Bool
named_in v [] = false
named_in v (n ∷ ns) = n == v || named_in v ns

pub before_irrefl : (x : List ℕ) → before x x ≡ false
unfolding before
before_irrefl [] = refl
before_irrefl (a ∷ x) = ground (arith, before_irrefl x)

pub before_trans : (x y z : List ℕ) → before x y ≡ true → before y z ≡ true → before x z ≡ true
unfolding before
before_trans x [] [] h k = absurd (ground arith)
before_trans x (b ∷ y) [] h k = absurd (ground arith)
before_trans [] y (c ∷ z) h k = refl
before_trans (a ∷ x) [] (c ∷ z) h k = absurd (ground arith)
before_trans (a ∷ x) (b ∷ y) (c ∷ z) h k = ground (arith, before_trans x y z)

before_total : (x y : List ℕ) → before x y ≡ false → before y x ≡ false → x ≡ y
unfolding before
before_total [] [] h k = refl
before_total [] (b ∷ y) h k = absurd (ground arith)
before_total (a ∷ x) [] h k = absurd (ground arith)
before_total (a ∷ x) (b ∷ y) h k = ground (arith, before_total x y)

pub less_asym : (s t : String) → less s t ≡ true → less t s ≡ false
less_asym s t h =
    let through = before_trans (codes s) (codes t) (codes s) h in
    ground (arith, through, before_irrefl (codes s))

pub less_trans : (s t u : String) → less s t ≡ true → less t u ≡ true → less s u ≡ true
less_trans s t u h k = before_trans (codes s) (codes t) (codes u) h k

codes_inj : (s t : String) → codes s ≡ codes t → s ≡ t
codes_inj String.[] String.[] h = refl
codes_inj String.[] (String.◌∷◌ d t) h = cc
codes_inj (String.◌∷◌ c s) String.[] h = cc
codes_inj (String.◌∷◌ c s) (String.◌∷◌ d t) h =
    let head = Char-path c d cc in let tail = codes_inj s t cc in cc

pub less_total : (s t : String) → less s t ≡ false → less t s ≡ false → s ≡ t
less_total s t h k = codes_inj s t (before_total (codes s) (codes t) h k)

insert_once-named :
    (v x : String) (ns : List String) → named_in v (insert_once x ns) ≡ (x == v || named_in v ns)
unfolding insert_once named_in
insert_once-named v x [] = ground arith
insert_once-named v x (n ∷ ns) =
    ground (arith, insert_once-named v x ns, eq_iff x n, eq_iff x v, eq_iff n v)

pub sorted_set-named : (v : String) (ns : List String) → named_in v (sorted_set ns) ≡ named_in v ns
unfolding sorted_set named_in
sorted_set-named v [] = refl
sorted_set-named v (n ∷ ns) =
    insert_once-named v n (sorted_set ns) ∙ rw (sorted_set-named v ns) refl

pub append-named :
    (v : String) (ns ms : List String) → named_in v (ns ++ ms) ≡ (named_in v ns || named_in v ms)
unfolding named_in
append-named v [] ms = refl
append-named v (n ∷ ns) ms = ground (arith, append-named v ns ms)

-- In the order of SQLite and of Python, with no text twice
abbrev pub IsAscending : List String → Type 0
IsAscending [] = Unit
IsAscending (v ∷ vs) = All (λ w. less v w ≡ true) vs × IsAscending vs

All-later :
    (v n : String) (ns : List String)
    → less v n ≡ true
    → All (λ w. less n w ≡ true) ns
    → All (λ w. less v w ≡ true) ns
All-later v n [] h a = tt
All-later v n (m ∷ ns) h a = (less_trans v n m h a.0, All-later v n ns h a.1)

All-insert_once :
    (P : String → Type 0) (v : String) (ns : List String)
    → P v
    → All P ns
    → All P (insert_once v ns)
unfolding insert_once
All-insert_once P v [] p a = (p, tt)
All-insert_once P v (n ∷ ns) p a = elim (Bool-cases (v == n)) [
  | inl e ↦ rw e a
  | inr e ↦ elim (Bool-cases (less v n)) [
    | inl f ↦ rw (e, f) (p, a)
    | inr f ↦ rw (e, f) (a.0, All-insert_once P v ns p a.1)
  ]
]

less_after : (v n : String) → (v == n) ≡ false → less v n ≡ false → less n v ≡ true
less_after v n other h = elim (Bool-cases (less n v)) [
  | inl e ↦ e
  | inr e ↦ absurd (cc ((eq_iff v n).1 (less_total v n h e), other))
]

insert_once-IsAscending :
    (v : String) (ns : List String) → IsAscending ns → IsAscending (insert_once v ns)
unfolding insert_once
insert_once-IsAscending v [] a = (tt, tt)
insert_once-IsAscending v (n ∷ ns) a = elim (Bool-cases (v == n)) [
  | inl e ↦ rw e a
  | inr e ↦ elim (Bool-cases (less v n)) [
    | inl f ↦ rw (e, f) ((f, All-later v n ns f a.0), a)
    | inr f ↦
        rw (e, f)
          (
            All-insert_once (λ w. less n w ≡ true) v ns (less_after v n e f) a.0,
            insert_once-IsAscending v ns a.1,
          )
  ]
]

pub sorted_set-IsAscending : (ns : List String) → IsAscending (sorted_set ns)
unfolding sorted_set
sorted_set-IsAscending [] = tt
sorted_set-IsAscending (n ∷ ns) =
    insert_once-IsAscending n (sorted_set ns) (sorted_set-IsAscending ns)
