-- ===== src/Prelude/Table.antt =====
-- A table with a text primary key, in insertion order (SQLite's rowid). A key is held by at most
-- one row, so a lookup and an update stop at the first match; an insert of a key that is taken is
-- refused by the caller as an integrity error.
use Prim.Native.Nat.{ℕ, ◌+◌}
use Prim.Native.String.{String}
use mathlib.Core.Path.{◌≡◌, refl, subst}
use mathlib.Core.Logic.{inl, inr}
use mathlib.Core.Bool.{Bool}
use mathlib.Core.Option
use mathlib.Core.Option.{Option, none, some}
use mathlib.Core.List.{List, [], ◌∷◌, ◌++◌}
use native.Mathlib.Omega.{arith}
use text.Mathlib.TextEquality.{eq_iff}
use text.Mathlib.TextPositions.{eq_refl}
use sts2_the_perfect_defect.Prelude.Tests.{◌==◌, string_eq, if◌then◌else◌, Bool-cases}
use sts2_the_perfect_defect.Prelude.Lists.{total, All}

-- `SELECT * FROM t WHERE test ORDER BY rowid LIMIT 1`
unfoldable pub first_where {ℓ} : {R : Type ℓ} → (R → Bool) → List R → Option R
first_where test [] = none
first_where test (r ∷ t) = if test r then some r else first_where test t

module _ {ℓ} {R : Type ℓ} (key : R → String) where
  -- `SELECT * FROM t WHERE key=?`, then `fetchone()`
  unfoldable pub find : String → List R → Option R
  find k [] = none
  find k (r ∷ t) = if key r == k then some r else find k t

  -- `UPDATE t SET ... WHERE key=?`
  unfoldable pub update : String → (R → R) → List R → List R
  update k f [] = []
  update k f (r ∷ t) = if key r == k then f r ∷ t else r ∷ update k f t

  -- An update moves any sum over the rows by exactly the change of the row that it finds.
  pub total-update :
      (m : R → ℕ) (k : String) (f : R → R) (t : List R) (r : R)
      → find k t ≡ some r
      → total m (update k f t) + m r ≡ total m t + m (f r)
  unfolding find update
  total-update m k f [] r h = absurd (ground arith)
  total-update m k f (x ∷ t) r h = ground (arith, total-update m k f t r)

  pub update-eq_self : (k : String) (f : R → R) (t : List R) → find k t ≡ none → update k f t ≡ t
  unfolding find update
  update-eq_self k f [] h = refl
  update-eq_self k f (x ∷ t) h = ground (arith, update-eq_self k f t)

  pub find-update :
      (k j : String) (f : R → R) (t : List R)
      → ((r : R) → key (f r) ≡ key r)
      → find j (update k f t) ≡ (if k == j then Option.map f (find k t) else find j t)
  unfolding find update
  find-update k j f [] h = ground arith
  find-update k j f (x ∷ t) h =
      ground (arith, h x, find-update k j f t h, eq_iff k j, eq_iff (key x) k, eq_iff (key x) j)

  pub find-append :
      (k : String) (r : R) (t : List R)
      → find k (t ++ r ∷ [])
        ≡ elim (find k t) [ some s ↦ some s | none ↦ (if key r == k then some r else none) ]
  unfolding find
  find-append k r [] = ground arith
  find-append k r (x ∷ t) = ground (arith, find-append k r t)

  pub key-find : (k : String) (t : List R) (r : R) → find k t ≡ some r → key r ≡ k
  unfolding find
  key-find k [] r h = absurd (ground arith)
  key-find k (x ∷ t) r h = ground (arith, eq_iff (key x) k, key-find k t r)

  pub All-find {κ} :
      (P : R → Type κ) (k : String) (t : List R) (r : R) → All P t → find k t ≡ some r → P r
  unfolding find
  All-find P k [] r a h = absurd (ground arith)
  All-find P k (x ∷ t) r a h = elim (Bool-cases (key x == k)) [
    | inl e ↦ let same : x ≡ r = ground arith in subst P same a.0
    | inr e ↦ All-find P k t r a.1 (rw e at h)
  ]

  pub All-update {κ} :
      (P : R → Type κ) (k : String) (f : R → R) (t : List R)
      → All P t
      → ((r : R) → find k t ≡ some r → P (f r))
      → All P (update k f t)
  unfolding find update
  All-update P k f [] a h = a
  All-update P k f (x ∷ t) a h = elim (Bool-cases (key x == k)) [
    | inl e ↦ rw e (h x (rw e), a.1)
    | inr e ↦ rw e (a.0, All-update P k f t a.1 (λ r p. h r (rw e p)))
  ]

  pub find-append_new :
      (r : R) (t : List R) → find (key r) t ≡ none → find (key r) (t ++ r ∷ []) ≡ some r
  unfolding find
  find-append_new r [] h = rw eq_refl
  find-append_new r (x ∷ t) h = ground (arith, find-append_new r t)

  pub find-update_self :
      (k : String) (f : R → R) (t : List R) (r : R)
      → ((r : R) → key (f r) ≡ key r)
      → find k t ≡ some r
      → find k (update k f t) ≡ some (f r)
  unfolding find update
  find-update_self k f [] r same h = absurd (ground arith)
  find-update_self k f (x ∷ t) r same h = ground (arith, same x, find-update_self k f t r same)
