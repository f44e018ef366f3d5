-- ===== src/Data/WholeRuns/Order.antt =====
-- `min` and `max` of texts in stpd/fullrun/data.py, and the rank of a text in a list.
use sts2_the_perfect_defect.Prelude.{
  ℕ, ◌<◌, ◌≤◌, ◌≡◌, String, true, List, [], ◌∷◌, arith, if◌then◌else◌, total, length, eq_iff, ◌==◌,
  string_eq, nat_eq, inl, inr, Bool-cases,
}
use sts2_the_perfect_defect.Boundary.Checks.{codes}
use sts2_the_perfect_defect.Boundary.Texts.{before_irrefl, before_trans, less, named_in}

abbrev pub larger : String → String → String
larger s t = if less s t then t else s

abbrev pub smaller : String → String → String
smaller s t = if less t s then t else s

-- How many texts of a list come before one
abbrev pub rank : List String → String → ℕ
rank names v = total (λ n. if less n v then 1 else 0) names

rank_mono : (names : List String) (a b : String) → less a b ≡ true → rank names a ≤ rank names b
rank_mono [] a b h = omega arith
rank_mono (n ∷ ns) a b h =
    let rest = rank_mono ns a b h in
    let through = before_trans (codes n) (codes a) (codes b) in
    elim (Bool-cases (less n a)) [
      | inl e ↦ rw (e, through e h) (omega (arith, rest))
      | inr e ↦ rw e (ground (arith, rest))
    ]

pub rank-less :
    (names : List String) (a b : String)
    → named_in a names ≡ true
    → less a b ≡ true
    → rank names a < rank names b
unfolding named_in
rank-less [] a b i h = absurd (ground arith)
rank-less (n ∷ ns) a b i h = elim (Bool-cases (n == a)) [
  | inl e ↦
      let same = (eq_iff n a).0 e in
      rw (same, h, before_irrefl (codes a)) (omega (arith, rank_mono ns a b h))
  | inr e ↦
      let rest = rank-less ns a b (ground arith) h in
      let through = before_trans (codes n) (codes a) (codes b) in
      elim (Bool-cases (less n a)) [
        | inl f ↦ rw (f, through f h) (omega (arith, rest))
        | inr f ↦ rw f (ground (arith, rest))
      ]
]

rank_bound : (names : List String) (v : String) → rank names v ≤ length names
rank_bound [] v = omega arith
rank_bound (n ∷ ns) v = ground (arith, rank_bound ns v)

pub rank-length :
    (names : List String) (v : String) → named_in v names ≡ true → rank names v < length names
unfolding named_in
rank-length [] v i = absurd (ground arith)
rank-length (n ∷ ns) v i = elim (Bool-cases (n == v)) [
  | inl e ↦
      let same = (eq_iff n v).0 e in
      rw (same, before_irrefl (codes v)) (omega (arith, rank_bound ns v))
  | inr e ↦ let rest = rank-length ns v (ground arith) in ground (arith, rest)
]
