-- ===== src/Prelude/Lists.antt =====
-- Lists measured by native numbers, sums over a list, and predicates on all members.
use Prim.Native.Nat.{ℕ, zero, suc, ◌+◌}
use mathlib.Core.Bool.{Bool, false, ◌||◌}
use mathlib.Core.Option.{Option, none, some}
use mathlib.Core.Path.{◌≡◌, subst, sym}
use mathlib.Core.List.{Memᴰ, List, [], ◌∷◌, ◌++◌}
use native.Mathlib.Omega.{arith}

module _ {ℓ} {A : Type ℓ} where
  abbrev pub length : List A → ℕ
  length [] = 0
  length (x ∷ xs) = suc (length xs)

  -- The member at a place
  unfoldable pub get_elem? : List A → ℕ → Option A
  get_elem? [] i = none
  get_elem? (x ∷ xs) zero = some x
  get_elem? (x ∷ xs) (suc i) = get_elem? xs i

  -- The sum of a measure over a list.
  abbrev pub total : (A → ℕ) → List A → ℕ
  total f [] = 0
  total f (x ∷ xs) = f x + total f xs

  pub total-append : (f : A → ℕ) (xs ys : List A) → total f (xs ++ ys) ≡ total f xs + total f ys
  total-append f [] ys = omega arith
  total-append f (x ∷ xs) ys = omega (arith, total-append f xs ys)

  -- Whether a test holds of some member.
  abbrev pub any : (A → Bool) → List A → Bool
  any test [] = false
  any test (x ∷ xs) = test x || any test xs

  abbrev pub All {κ} : (A → Type κ) → List A → Type κ
  All P [] = Unit
  All P (x ∷ xs) = P x × All P xs

  -- A predicate holds of two lists joined where it holds of each.
  pub All-append {κ} : (Q : A → Type κ) (t u : List A) → All Q t → All Q u → All Q (t ++ u)
  All-append Q [] u left right = right
  All-append Q (x ∷ t) u left right = (left.0, All-append Q t u left.1 right)

  pub All-member {κ} : (Q : A → Type κ) (t : List A) (x : A) → All Q t → Memᴰ x t → Q x
  All-member Q [] x a m = elim m [ ]
  All-member Q (y ∷ t) x a (Memᴰ.head e) = subst Q (sym e) a.0
  All-member Q (y ∷ t) x a (Memᴰ.tail m) = All-member Q t x a.1 m
