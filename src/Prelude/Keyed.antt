-- ===== src/Prelude/Keyed.antt =====
-- The primary key of a table: no two rows hold the same key, and no change to a row breaks that.
use Prim.Native.String.{String}
use mathlib.Core.Path.{◌≡◌, refl}
use mathlib.Core.Bool.{Bool, true, false}
use mathlib.Core.Logic.{inl, inr}
use mathlib.Core.Option.{none, some}
use mathlib.Core.List.{List, [], ◌∷◌, ◌++◌, map}
use native.Mathlib.Omega.{arith}
use text.Mathlib.TextEquality.{eq_iff}
use text.Mathlib.TextPositions.{eq_refl}
use sts2_the_perfect_defect.Prelude.Tests.{◌==◌, string_eq, Bool-cases}
use sts2_the_perfect_defect.Prelude.Table.{find, update, first_where}
use sts2_the_perfect_defect.Prelude.Lists.{All}

module _ {ℓ} {R : Type ℓ} (key : R → String) where
  abbrev pub IsKeyed : List R → Type ℓ
  IsKeyed [] = Unit
  IsKeyed (r ∷ t) = (find key (key r) t ≡ none) × IsKeyed t

module _ {ℓ} {R : Type ℓ} (key : R → String) where
  find-update-none :
      (k j : String) (f : R → R) (t : List R)
      → ((r : R) → find key j t ≡ some r → key (f r) ≡ key r)
      → find key k t ≡ none
      → find key k (update key j f t) ≡ none
  unfolding find update
  find-update-none k j f [] same h = refl
  find-update-none k j f (x ∷ t) same h = elim (Bool-cases (key x == j)) [
    | inl e ↦ let keep : key (f x) ≡ key x = same x (rw e) in rw e (rw keep (ground arith))
    | inr e ↦ let rest = find-update-none k j f t (λ r p. same r (rw e p)) in ground (arith, rest)
  ]

  pub update-IsKeyed :
      (j : String) (f : R → R) (t : List R)
      → ((r : R) → find key j t ≡ some r → key (f r) ≡ key r)
      → IsKeyed key t
      → IsKeyed key (update key j f t)
  unfolding find update
  update-IsKeyed j f [] same h = h
  update-IsKeyed j f (x ∷ t) same h = elim (Bool-cases (key x == j)) [
    | inl e ↦ let keep : key (f x) ≡ key x = same x (rw e) in rw e (rw keep h.0, h.1)
    | inr e ↦
        let other = λ (r : R) (p : find key j t ≡ some r). same r (rw e p) in
        rw e (find-update-none (key x) j f t other h.0, update-IsKeyed j f t other h.1)
  ]

  find-map-none :
      (k : String) (f : R → R) (t : List R)
      → ((r : R) → key (f r) ≡ key r)
      → find key k t ≡ none
      → find key k (map f t) ≡ none
  unfolding find
  find-map-none k f [] same h = refl
  find-map-none k f (x ∷ t) same h = rw (same x) (ground (arith, find-map-none k f t same))

  pub map-IsKeyed :
      (f : R → R) (t : List R)
      → ((r : R) → key (f r) ≡ key r)
      → IsKeyed key t
      → IsKeyed key (map f t)
  map-IsKeyed f [] same h = h
  map-IsKeyed f (x ∷ t) same h =
      (rw (same x) (find-map-none (key x) f t same h.0), map-IsKeyed f t same h.1)

  find-append_none :
      (k : String) (t : List R) (r : R)
      → find key k t ≡ none
      → (key r == k) ≡ false
      → find key k (t ++ r ∷ []) ≡ none
  unfolding find
  find-append_none k [] r h e = rw e
  find-append_none k (x ∷ t) r h e = ground (arith, find-append_none k t r)

  pub append-IsKeyed :
      (t : List R) (r : R) → find key (key r) t ≡ none → IsKeyed key t → IsKeyed key (t ++ r ∷ [])
  unfolding find
  append-IsKeyed [] r fresh h = (refl, tt)
  append-IsKeyed (x ∷ t) r fresh h = (
    find-append_none (key x) t r h.0
        (ground (arith, eq_iff (key r) (key x), eq_iff (key x) (key r))),
    append-IsKeyed t r (ground arith) h.1,
  )

  absent-other :
      (k : String) (t : List R) (r : R)
      → find key k t ≡ none
      → find key (key r) t ≡ some r
      → (k == key r) ≡ false
  absent-other k t r h f = elim (Bool-cases (k == key r)) [
    | inl e ↦ let same = (eq_iff k (key r)).0 e in absurd (ground (arith, rw same at h))
    | inr e ↦ e
  ]

  -- What holds of every row that its own key finds holds of all rows.
  pub All-found {κ} :
      (P : R → Type κ) (t : List R)
      → IsKeyed key t
      → ((r : R) → find key (key r) t ≡ some r → P r)
      → All P t
  unfolding find
  All-found P [] h p = tt
  All-found P (x ∷ t) h p = (
    p x (rw eq_refl refl),
    All-found P t h.1 (λ r f. p r (rw (absent-other (key x) t r h.0 f) f)),
  )

  not-found :
      (k : String) (test : R → Bool) (t : List R) (r : R)
      → find key k t ≡ none
      → first_where test t ≡ some r
      → (key r == k) ≡ false
  unfolding find first_where
  not-found k test [] r h f = absurd (ground arith)
  not-found k test (x ∷ t) r h f = ground (arith, not-found k test t r)

  -- A row that a test selects is the row that its key finds.
  pub find-first_where :
      (test : R → Bool) (t : List R) (r : R)
      → IsKeyed key t
      → first_where test t ≡ some r
      → find key (key r) t ≡ some r
  unfolding find first_where
  find-first_where test [] r h f = absurd (ground arith)
  find-first_where test (x ∷ t) r h f = ground (
    arith,
    h.1,
    find-first_where test t r h.1,
    not-found (key x) test t r h.0,
    eq_iff (key x) (key r),
    eq_iff (key r) (key x),
  )

pub first_where-test {ℓ} :
    {R : Type ℓ} (test : R → Bool) (t : List R) (r : R)
    → first_where test t ≡ some r
    → test r ≡ true
unfolding first_where
first_where-test test [] r h = absurd (ground arith)
first_where-test test (x ∷ t) r h = ground (arith, first_where-test test t r)
