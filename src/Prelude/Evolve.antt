-- ===== src/Prelude/Evolve.antt =====
-- How a table changes when no row is ever deleted: each row takes a step of its own, and new rows
-- stand at the end. One transaction makes such a change, and so does any run of them.
use Prim.Native.Nat.{ℕ, ◌≤◌}
use Prim.Native.String.{String}
use mathlib.Core.Path.{◌≡◌, subst}
use mathlib.Core.Logic.{inl, inr}
use mathlib.Core.Option.{some}
use mathlib.Core.List.{List, [], ◌∷◌, ◌++◌, map}
use native.Mathlib.Omega.{arith}
use sts2_the_perfect_defect.Prelude.Tests.{◌==◌, string_eq, Bool-cases}
use sts2_the_perfect_defect.Prelude.Lists.{total, All}
use sts2_the_perfect_defect.Prelude.Table.{find, update}

module _ {ℓ} {R : Type ℓ} where
  abbrev pub Evolves : (R → R → Type 0) → (R → Type 0) → List R → List R → Type 0
  Evolves Step New [] new = All New new
  Evolves Step New (r ∷ t) [] = ⊥
  Evolves Step New (r ∷ t) (s ∷ u) = Step r s × Evolves Step New t u

module _ {ℓ} {R : Type ℓ} (Step : R → R → Type 0) (New : R → Type 0) where
  pub Evolves-append :
      (t new : List R) → ((r : R) → Step r r) → All New new → Evolves Step New t (t ++ new)
  Evolves-append [] new same h = h
  Evolves-append (r ∷ t) new same h = (same r, Evolves-append t new same h)

  pub Evolves-refl : (t : List R) → ((r : R) → Step r r) → Evolves Step New t t
  Evolves-refl [] same = tt
  Evolves-refl (r ∷ t) same = (same r, Evolves-refl t same)

  pub Evolves-map :
      (f : R → R) (t : List R) → ((r : R) → Step r (f r)) → Evolves Step New t (map f t)
  Evolves-map f [] step = tt
  Evolves-map f (r ∷ t) step = (step r, Evolves-map f t step)

  pub Evolves-update :
      (key : R → String) (k : String) (f : R → R) (t : List R)
      → ((r : R) → Step r r)
      → ((r : R) → find key k t ≡ some r → Step r (f r))
      → Evolves Step New t (update key k f t)
  unfolding find update
  Evolves-update key k f [] same step = tt
  Evolves-update key k f (r ∷ t) same step = elim (Bool-cases (key r == k)) [
    | inl e ↦ rw e (step r (rw e), Evolves-refl t same)
    | inr e ↦ rw e (same r, Evolves-update key k f t same (λ s p. step s (rw e p)))
  ]

  New-Evolves :
      (t u : List R)
      → ((r s : R) → New r → Step r s → New s)
      → All New t
      → Evolves Step New t u
      → All New u
  New-Evolves [] u keep h e = e
  New-Evolves (r ∷ t) [] keep h e = absurd e
  New-Evolves (r ∷ t) (s ∷ u) keep h e = (keep r s h.0 e.0, New-Evolves t u keep h.1 e.1)

  pub Evolves-trans :
      (t u v : List R)
      → ((r s w : R) → Step r s → Step s w → Step r w)
      → ((r s : R) → New r → Step r s → New s)
      → Evolves Step New t u
      → Evolves Step New u v
      → Evolves Step New t v
  Evolves-trans [] u v join keep e f = New-Evolves u v keep e f
  Evolves-trans (r ∷ t) [] v join keep e f = absurd e
  Evolves-trans (r ∷ t) (s ∷ u) [] join keep e f = absurd f
  Evolves-trans (r ∷ t) (s ∷ u) (w ∷ v) join keep e f =
      (join r s w e.0 f.0, Evolves-trans t u v join keep e.1 f.1)

  -- A row that is found before the change is found after it, one step on.
  pub find-Evolves :
      (key : R → String) (k : String) (t u : List R) (r : R)
      → ((r s : R) → Step r s → key s ≡ key r)
      → Evolves Step New t u
      → find key k t ≡ some r
      → (s : R) × (find key k u ≡ some s) × Step r s
  unfolding find
  find-Evolves key k [] u r same e h = absurd (ground arith)
  find-Evolves key k (x ∷ t) [] r same e h = absurd e
  find-Evolves key k (x ∷ t) (y ∷ u) r same e h = elim (Bool-cases (key x == k)) [
    | inl p ↦
        let x-eq-r : x ≡ r = ground arith in
        (y, rw (same x y e.0, p), subst (λ w. Step w y) x-eq-r e.0)
    | inr p ↦
        let (s, found, step) = find-Evolves key k t u r same e.1 (rw p at h) in
        (s, rw (same x y e.0, p) found, step)
  ]

  -- A sum over the rows grows by what the new rows hold, if no step adds to it.
  pub total-Evolves :
      (m : R → ℕ) (t u : List R)
      → ((r s : R) → Step r s → m s ≤ m r)
      → ((r : R) → New r → m r ≡ 0)
      → Evolves Step New t u
      → total m u ≤ total m t
  total-Evolves m [] [] less none_new e = omega arith
  total-Evolves m [] (s ∷ u) less none_new e =
      omega (arith, none_new s e.0, total-Evolves m [] u less none_new e.1)
  total-Evolves m (r ∷ t) [] less none_new e = absurd e
  total-Evolves m (r ∷ t) (s ∷ u) less none_new e =
      omega (arith, less r s e.0, total-Evolves m t u less none_new e.1)

module _ {ℓ} {R : Type ℓ} where
  pub Evolves-weaken :
      (Step : R → R → Type 0) (New : R → Type 0) (Step' : R → R → Type 0) (New' : R → Type 0)
      (t u : List R)
      → ((r s : R) → Step r s → Step' r s)
      → ((r : R) → New r → New' r)
      → Evolves Step New t u
      → Evolves Step' New' t u
  Evolves-weaken S N S' N' [] [] f g e = tt
  Evolves-weaken S N S' N' [] (s ∷ u) f g e = (g s e.0, Evolves-weaken S N S' N' [] u f g e.1)
  Evolves-weaken S N S' N' (r ∷ t) [] f g e = absurd e
  Evolves-weaken S N S' N' (r ∷ t) (s ∷ u) f g e = (f r s e.0, Evolves-weaken S N S' N' t u f g e.1)

module _ {ℓ} {R : Type ℓ} (Step : R → R → Type 0) (New : R → Type 0) where
  -- What every step keeps and every new row has, all rows have after the change.
  pub All-Evolves :
      (P : R → Type 0) (t u : List R)
      → ((r s : R) → P r → Step r s → P s)
      → ((r : R) → New r → P r)
      → All P t
      → Evolves Step New t u
      → All P u
  All-Evolves P [] [] keep new h e = tt
  All-Evolves P [] (s ∷ u) keep new h e = (new s e.0, All-Evolves P [] u keep new tt e.1)
  All-Evolves P (r ∷ t) [] keep new h e = absurd e
  All-Evolves P (r ∷ t) (s ∷ u) keep new h e =
      (keep r s h.0 e.0, All-Evolves P t u keep new h.1 e.1)
