-- ===== src/Prelude/Result.antt =====
-- Exceptions as values: what a Python function raises instead of returning.
use Prim.Native.String.{String}
use mathlib.Core.Path.{◌≡◌, refl, subst}
use mathlib.Core.Bool.{Bool, true, false}
use mathlib.Core.Option.{Option, none, some}

-- `boundary stage code` is `BoundaryError(stage, code)` of json_boundary.py; the others are the
-- exceptions of the language and of sqlite3 that the modelled code can raise.
pub data Error : Type 0 where
  boundary : String → String → Error
  type_error key_error value_error os_error integrity_error : Error

pub data Result {ℓ} (A : Type ℓ) : Type ℓ where
  ok : A → Result A
  err : Error → Result A

-- `if not test: raise error`
unfoldable pub guard : Bool → Error → Result (Unit {0})
guard true e = ok tt
guard false e = err e

-- `if row is None: raise error`
unfoldable pub expect {ℓ} : {A : Type ℓ} → Option A → Error → Result A
expect none e = err e
expect (some a) e = ok a

-- `if test: m else: k`, where the branches may raise
unfoldable pub branch {ℓ} : {A : Type ℓ} → Bool → Result A → Result A → Result A
branch true m k = m
branch false m k = k

-- `if row is None: m else: k(row)`
unfoldable pub match_option {ℓ κ} :
    {A : Type ℓ} {B : Type κ} → Option A → Result B → (A → Result B) → Result B
match_option none m k = m
match_option (some a) m k = k a

-- These are shut, so that a rule for one finds its parts; opening this opens the others too.
infixl 5 ◌>>=◌ ◌>>◌
unfoldable pub ◌>>=◌ {ℓ κ} : {A : Type ℓ} {B : Type κ} → Result A → (A → Result B) → Result B
unfolding guard expect branch match_option
ok value >>= rest = rest value
err raised >>= rest = err raised

-- A check, then the rest
abbrev pub ◌>>◌ {ℓ} : {A : Type ℓ} (check : Result (Unit {0})) (rest : Result A) → Result A
check >> rest = check >>= λ _. rest

pub ok-injective {ℓ} : {A : Type ℓ} {a b : A} → ok a ≡ ok b → a ≡ b
ok-injective e = cc

-- Inversion of a successful bind, for proofs where the parts stay shut.
pub >>=-eq-ok {ℓ κ} :
    {A : Type ℓ} {B : Type κ} (first : Result A) (rest : A → Result B) {value : B}
    → (first >>= rest) ≡ ok value
    → (x : A) × (first ≡ ok x) × (rest x ≡ ok value)
unfolding ◌>>=◌
>>=-eq-ok (ok x) rest h = (x, refl, h)
>>=-eq-ok (err e) rest h = cc

-- What holds of the value that a computation returns, if it returns.
pub record Ensures {ℓ} {A : Type ℓ} (P : A → Type 0) (r : Result A) : Type ℓ where
  pub holds : (a : A) → r ≡ ok a → P a

module _ {ℓ} {A : Type ℓ} {P : A → Type 0} where
  pub Ensures-ok : (a : A) → P a → Ensures P (ok a)
  Ensures-ok a h = record { holds = λ b e. subst P (ok-injective e) h }

  pub Ensures-err : (e : Error) → Ensures P (err e)
  Ensures-err e = record { holds = λ b p. absurd (cc) }

  pub Ensures-guard :
      (b : Bool) (e : Error) (k : Result A) → (b ≡ true → Ensures P k) → Ensures P (guard b e >> k)
  unfolding ◌>>=◌
  Ensures-guard true e k h = h refl
  Ensures-guard false e k h = Ensures-err e

  pub Ensures-branch :
      (b : Bool) (m k : Result A)
      → (b ≡ true → Ensures P m)
      → (b ≡ false → Ensures P k)
      → Ensures P (branch b m k)
  unfolding branch
  Ensures-branch true m k hm hk = hm refl
  Ensures-branch false m k hm hk = hk refl

module _ {ℓ κ} {A : Type ℓ} {B : Type κ} {P : B → Type 0} where
  -- The rest may use what the first part returned.
  pub Ensures-bind :
      (m : Result A) (f : A → Result B)
      → ((a : A) → m ≡ ok a → Ensures P (f a))
      → Ensures P (m >>= f)
  unfolding ◌>>=◌
  Ensures-bind (ok a) f h = h a refl
  Ensures-bind (err e) f h = Ensures-err e

  pub Ensures-expect :
      (o : Option A) (e : Error) (f : A → Result B)
      → ((a : A) → o ≡ some a → Ensures P (f a))
      → Ensures P (expect o e >>= f)
  unfolding ◌>>=◌
  Ensures-expect none e f h = Ensures-err e
  Ensures-expect (some a) e f h = h a refl

  pub Ensures-match :
      (o : Option A) (m : Result B) (k : A → Result B)
      → (o ≡ none → Ensures P m)
      → ((a : A) → o ≡ some a → Ensures P (k a))
      → Ensures P (match_option o m k)
  unfolding match_option
  Ensures-match none m k hm hk = hm refl
  Ensures-match (some a) m k hm hk = hk a refl
