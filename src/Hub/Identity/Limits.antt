-- ===== src/Hub/Identity/Limits.antt =====
-- How many requests of a source are admitted in a minute.
use sts2_the_perfect_defect.Prelude.{
  ℕ, ◌+◌, ◌-◌, max, ◌≤◌, ◌≡◌, refl, sym, ap, ◌∙◌, String, Bool, true, false, ◌&&◌, not, Option,
  none, some, List, [], ◌∷◌, ◌++◌, arith, leb, ◌==◌, nat_eq, string_eq, nat_beq_iff, if◌then◌else◌,
  Bool-cases, inl, inr, eq_iff, All,
}
use sts2_the_perfect_defect.Prelude.Result.{
  Result, ok, err, Ensures, Ensures-ok, Ensures-guard, Ensures-match,
}
use sts2_the_perfect_defect.Prelude.Table.{first_where}
use sts2_the_perfect_defect.Hub.Members.{Roll, Rate, settled}
use sts2_the_perfect_defect.Hub.Identity.{
  Service, rate, rate_source, minute, recent, counted, is_rate,
}

pub record RateRequest : Type 0 where
  pub source : String
  pub operation : String
  pub limit : ℕ
  pub now : ℕ

abbrev count_of_row : Option Rate → ℕ
count_of_row none = 0
count_of_row (some t) = t.count

abbrev count_at : String → ℕ → List Rate → ℕ
count_at id b ts = count_of_row (first_where (is_rate id b) ts)

recent-count :
    (id : String) (b : ℕ) (ts : List Rate) → count_at id b (recent b ts) ≡ count_at id b ts
unfolding first_where recent
recent-count id b [] = refl
recent-count id b (t ∷ ts) = ground (arith, recent-count id b ts)

-- A row that is found is counted once more, and the other keys stand as they stood.
counted-count :
    (id other : String) (b : ℕ) (ts : List Rate) (t : Rate)
    → first_where (is_rate other b) ts ≡ some t
    → count_at id b (counted other b ts) ≡ count_at id b ts + (if other == id then 1 else 0)
unfolding first_where counted
counted-count id other b [] t h = absurd (ground arith)
counted-count id other b (x ∷ ts) t h = ground (
  arith,
  counted-count id other b ts t,
  eq_iff other id,
  eq_iff x.source other,
  eq_iff x.source id,
)

appended-count :
    (id other : String) (b : ℕ) (ts : List Rate)
    → first_where (is_rate other b) ts ≡ none
    → count_at id b (ts ++ record { source = other; bucket = b; count = 1 } ∷ [])
      ≡ count_at id b ts + (if other == id then 1 else 0)
unfolding first_where
appended-count id other b [] h = ground (arith, nat_beq_iff b b)
appended-count id other b (x ∷ ts) h = ground (
  arith,
  appended-count id other b ts,
  eq_iff other id,
  eq_iff x.source id,
  eq_iff x.source other,
)

below_limit : (n c limit : ℕ) → n ≡ c → not (leb limit c) ≡ true → n + 1 ≤ max 1 limit
below_limit n c limit e h = ground arith

both_parts : (a b : Bool) → (a && b) ≡ true → (a ≡ true) × (b ≡ true)
both_parts a b h = ground arith

one_admitted :
    (c c' k l n : ℕ) → c' ≡ c + 1 → c + 1 ≤ max 1 k → k ≡ l → n ≤ max 1 l - c' → 1 + n ≤ max 1 l - c
one_admitted c c' k l n h below e rest = ground arith

none_admitted :
    (c c' l n : ℕ) (b : Bool)
    → c' ≡ c + (if b then 1 else 0)
    → n ≤ max 1 l - c'
    → 0 + n ≤ max 1 l - c
none_admitted c c' l n b h rest = ground arith

module _ (svc : Service) where
  -- One request that is admitted
  abbrev Counts : String → ℕ → RateRequest → Roll → Unit {0} × Roll → Type 0
  Counts id b q r (_, r') =
      let key = rate_source svc q.source q.operation in
      (count_at id b r'.rates ≡ count_at id b r.rates + (if key == id then 1 else 0))
      × (count_at key b r.rates + 1 ≤ max 1 q.limit)

  rate-Counts :
      (id : String) (b : ℕ) (q : RateRequest) (r : Roll)
      → minute q.now ≡ b
      → Ensures (Counts id b q r) (rate svc q.source q.operation q.limit q.now r)
  unfolding rate
  rate-Counts id b q r at_b =
      let key = rate_source svc q.source q.operation in
      rw at_b (
        Ensures-match _ _ _
          (λ free. Ensures-guard _ _ _ λ _. Ensures-ok _ (
            omega
                (arith, appended-count id key b (recent b r.rates) free, recent-count id b r.rates),
            omega (arith, recent-count key b r.rates, ap count_of_row free),
          ))
          (λ t found. Ensures-guard _ _ _ λ below. Ensures-ok _ (
            omega (
              arith,
              counted-count id key b (recent b r.rates) t found,
              recent-count id b r.rates,
            ),
            below_limit _ t.count q.limit (sym (recent-count key b r.rates) ∙ ap count_of_row found)
                below,
          )))

  abbrev is_admitted : Result (Unit {0} × Roll) → Bool
  is_admitted (ok a) = true
  is_admitted (err e) = false

  abbrev is_from : String → String → RateRequest → Bool
  is_from source operation q = q.source == source && q.operation == operation

  -- How many requests of a source for an operation are admitted, among those of all sources
  unfoldable pub admitted : String → String → List RateRequest → Roll → ℕ
  admitted source operation [] r = 0
  admitted source operation (q ∷ qs) r =
      let m = rate svc q.source q.operation q.limit q.now r in
      (if is_from source operation q && is_admitted m then 1 else 0)
      + admitted source operation qs (settled m r)

  -- Between the requests that a minute sees, the count of a key never falls.
  admitted_rest :
      (source operation : String) (limit_of : String → ℕ) (b : ℕ) (qs : List RateRequest) (r : Roll)
      → All (λ (q : RateRequest). (minute q.now ≡ b) × (q.limit ≡ limit_of q.operation)) qs
      → admitted source operation qs r
        ≤ max 1 (limit_of operation) - count_at (rate_source svc source operation) b r.rates
  unfolding admitted
  admitted_rest source operation limit_of b [] r a = omega arith
  admitted_rest source operation limit_of b (q ∷ qs) r a =
      let id = rate_source svc source operation in
      let m = rate svc q.source q.operation q.limit q.now r in
      step m ((rate-Counts id b q r a.0.0))
        (admitted_rest source operation limit_of b qs (settled m r) a.1)
    where
      step :
          (m : Result (Unit {0} × Roll))
          → Ensures (Counts (rate_source svc source operation) b q r) m
          → admitted source operation qs (settled m r)
            ≤ max 1 (limit_of operation)
              - count_at (rate_source svc source operation) b (settled m r).rates
          → (if is_from source operation q && is_admitted m then 1 else 0)
              + admitted source operation qs (settled m r)
            ≤ max 1 (limit_of operation) - count_at (rate_source svc source operation) b r.rates
      step (err e) h rest = elim (Bool-cases (is_from source operation q)) [
        | inl f ↦ rw f (omega (arith, rest))
        | inr f ↦ rw f (omega (arith, rest))
      ]
      step (ok (u, r')) h rest =
          let (counts, below) = h.holds (u, r') refl in
          elim (Bool-cases (is_from source operation q)) [
            | inl e ↦
                let of_source : q.source ≡ source =
                  (eq_iff q.source source).0 (both_parts _ _ e).0 in
                let of_op : q.operation ≡ operation =
                  (eq_iff q.operation operation).0 (both_parts _ _ e).1 in
                let self =
                  (eq_iff (rate_source svc source operation) (rate_source svc source operation)).1
                    refl in
                rw e (
                  one_admitted _ _ _ _ _ (rw (of_source, of_op, self) at counts)
                    (rw (of_source, of_op) at below) (a.0.1 ∙ ap limit_of of_op) rest)
            | inr e ↦ rw e (none_admitted _ _ _ _ _ counts rest)
          ]

  -- In a minute, a source has at most as many requests for an operation admitted as its limit
  -- allows, or one where it allows none, whatever other sources and operations ask for.
  pub rate-limit :
      (source operation : String) (limit_of : String → ℕ) (b : ℕ) (qs : List RateRequest) (r : Roll)
      → All (λ (q : RateRequest). (minute q.now ≡ b) × (q.limit ≡ limit_of q.operation)) qs
      → admitted source operation qs r ≤ max 1 (limit_of operation)
  rate-limit source operation limit_of b qs r a =
      omega (arith, admitted_rest source operation limit_of b qs r a)
