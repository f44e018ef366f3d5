-- ===== src/Hub/Identity/Rates.antt =====
-- `rate` of stpd/hub/identity.py: how often a source may ask for an operation in a minute.
use sts2_the_perfect_defect.Prelude.{
  ℕ, ◌+◌, ◌/◌, String, Bool, ◌&&◌, not, List, [], ◌∷◌, ◌++◌, ltb, leb, length, ◌==◌, nat_eq,
  string_eq, if◌then◌else◌,
}
use sts2_the_perfect_defect.Prelude.Result.{ok, ◌>>◌, guard, match_option}
use sts2_the_perfect_defect.Prelude.Table.{first_where}
use sts2_the_perfect_defect.Hub.Schema.{seconds}
use sts2_the_perfect_defect.Hub.Members.{RollTx, Rate}
use sts2_the_perfect_defect.Hub.Identity.Base.{Service, identity}

-- `int(time.time() // 60)`
abbrev pub minute : ℕ → ℕ
minute now = now / seconds 60

-- `DELETE FROM identity_rates WHERE bucket<?`
unfoldable pub recent : ℕ → List Rate → List Rate
recent b [] = []
recent b (t ∷ ts) = let rest = recent b ts in if ltb t.bucket b then rest else t ∷ rest

abbrev pub is_rate : String → ℕ → Rate → Bool
is_rate source b t = t.source == source && t.bucket == b

-- `UPDATE SET count=count+1` of the row with this key
unfoldable pub counted : String → ℕ → List Rate → List Rate
counted source b [] = []
counted source b (t ∷ ts) =
    if is_rate source b t then record t { count = t.count + 1 } ∷ ts else t ∷ counted source b ts

module _ (svc : Service) where
  abbrev pub rate_source : String → String → String
  rate_source source operation = svc.mac ("source" ∷ operation ∷ source ∷ [])

  unfoldable pub rate : String → String → ℕ → ℕ → RollTx (Unit {0})
  unfolding recent counted
  rate source operation limit now r = do
    let b = minute now
    let id = rate_source source operation
    let kept = recent b r.rates
    match_option (first_where (is_rate id b) kept)
        (do
          guard (ltb (length kept) 2048) (identity "identity_rate_limited")
          ok (tt, record r { rates = kept ++ record { source = id; bucket = b; count = 1 } ∷ [] }))
        (λ row. do
          guard (not (leb limit row.count)) (identity "identity_rate_limited")
          ok (tt, record r { rates = counted id b kept }))
