-- ===== src/Prelude/Thin.antt =====
-- A table from which rows were deleted.
use Prim.Native.Nat.{ℕ, ◌+◌, ◌≤◌}
use Prim.Native.String.{String}
use mathlib.Core.Path.{◌≡◌, refl}
use mathlib.Core.Option.{none}
use mathlib.Core.List.{List, [], ◌∷◌, ◌++◌}
use native.Mathlib.Omega.{arith}
use sts2_the_perfect_defect.Prelude.Tests.{string_eq}
use sts2_the_perfect_defect.Prelude.Lists.{total, length, All}
use sts2_the_perfect_defect.Prelude.Table.{find, update}
use sts2_the_perfect_defect.Prelude.Keyed.{IsKeyed}

-- The second list is the first one without some of its rows.
pub data Thins {ℓ} {R : Type ℓ} : List R → List R → Type ℓ where
  done : Thins [] []
  keeps : {r : R} {t u : List R} → Thins t u → Thins (r ∷ t) (r ∷ u)
  drops : {r : R} {t u : List R} → Thins t u → Thins (r ∷ t) u

module _ {ℓ} {R : Type ℓ} where
  pub Thins-total : (m : R → ℕ) {t u : List R} → Thins t u → total m u ≤ total m t
  Thins-total m done = omega arith
  Thins-total m (keeps h) = omega (arith, Thins-total m h)
  Thins-total m (drops h) = omega (arith, Thins-total m h)

  pub Thins-length : {t u : List R} → Thins t u → length u ≤ length t
  Thins-length done = omega arith
  Thins-length (keeps h) = omega (arith, Thins-length h)
  Thins-length (drops h) = omega (arith, Thins-length h)

  pub Thins-All {κ} : (P : R → Type κ) {t u : List R} → Thins t u → All P t → All P u
  Thins-All P done a = tt
  Thins-All P (keeps h) a = (a.0, Thins-All P h a.1)
  Thins-All P (drops h) a = Thins-All P h a.1

  Thins-none :
      (key : R → String) (k : String) {t u : List R}
      → Thins t u
      → find key k t ≡ none
      → find key k u ≡ none
  unfolding find
  Thins-none key k done h = refl
  Thins-none key k (keeps x) h = ground (arith, Thins-none key k x)
  Thins-none key k (drops x) h = Thins-none key k x (ground arith)

  pub Thins-IsKeyed : (key : R → String) {t u : List R} → Thins t u → IsKeyed key t → IsKeyed key u
  Thins-IsKeyed key done h = tt
  Thins-IsKeyed key (keeps x) h = (Thins-none key _ x h.0, Thins-IsKeyed key x h.1)
  Thins-IsKeyed key (drops x) h = Thins-IsKeyed key x h.1

  pub length-append : (t u : List R) → length (t ++ u) ≡ length t + length u
  length-append [] u = omega arith
  length-append (r ∷ t) u = omega (arith, length-append t u)

  pub length-update :
      (key : R → String) (k : String) (f : R → R) (t : List R)
      → length (update key k f t) ≡ length t
  unfolding update
  length-update key k f [] = refl
  length-update key k f (r ∷ t) = ground (arith, length-update key k f t)
