-- ===== src/Hub/Exec.antt =====
-- Methods that change an object and may raise. What was done before a raise stays done, so the
-- state comes back beside the error too.
use sts2_the_perfect_defect.Prelude.{Bool, true, false, Option, none, some}
use sts2_the_perfect_defect.Prelude.Result.{Error, Result, ok, err, boundary, value_error, os_error}

abbrev pub Exec : Type 0 → Type 0 → Type 0
Exec S A = S → Result A × S

-- `except (BoundaryError, OSError, ValueError)`
abbrev pub is_caught : Error → Bool
is_caught (boundary stage code) = true
is_caught value_error = true
is_caught os_error = true
is_caught _ = false

module _ {S A : Type 0} where
  unfoldable pub pure : A → Exec S A
  pure a s = (ok a, s)

  unfoldable pub raise : Error → Exec S A
  raise e s = (err e, s)

  unfoldable pub lift : Result A → Exec S A
  lift r s = (r, s)

  unfoldable pub gets : (S → A) → Exec S A
  gets f s = (ok (f s), s)

  unfoldable pub choose : Bool → Exec S A → Exec S A → Exec S A
  choose true m k = m
  choose false m k = k

module _ {S : Type 0} where
  unfoldable pub modify : (S → S) → Exec S (Unit {0})
  modify f s = (ok tt, f s)

module _ {S B : Type 0} where
  abbrev caught_by : Bool → Error → (Error → Exec S B) → Exec S B
  caught_by true e h s = h e s
  caught_by false e h s = (err e, s)

module _ {S A B : Type 0} where
  abbrev pub go_on : Result A → (A → Exec S B) → Exec S B
  go_on (ok a) f s = f a s
  go_on (err e) f s = (err e, s)

  infixl 5 ◌>>=◌ ◌>>◌
  unfoldable pub ◌>>=◌ : Exec S A → (A → Exec S B) → Exec S B
  unfolding pure raise lift gets choose modify
  ◌>>=◌ m f s = let (r, s') = m s in go_on r f s'

  abbrev pub ◌>>◌ : Exec S A → Exec S B → Exec S B
  m >> k = m >>= λ _. k

  unfoldable pub on_option : Option A → Exec S B → (A → Exec S B) → Exec S B
  on_option none m k = m
  on_option (some a) m k = k a

  abbrev handled : Result A → (A → Exec S B) → (Error → Exec S B) → Exec S B
  handled (ok a) f h s = f a s
  handled (err e) f h s = caught_by (is_caught e) e h s

  -- `try: a = m` with the handler `h` for the caught errors, then `f a`
  unfoldable pub rescue : Exec S A → (A → Exec S B) → (Error → Exec S B) → Exec S B
  rescue m f h s = let (r, s') = m s in handled r f h s'

-- `m` keeps `P`, whether it returns or raises.
pub record Preserves {S A : Type 0} (P : S → Type 0) (m : Exec S A) : Type 0 where
  pub step : (s : S) → P s → P (m s).1

module _ {S A : Type 0} {P : S → Type 0} where
  pub Preserves-pure : (a : A) → Preserves P (pure a)
  unfolding pure
  Preserves-pure a = record { step = λ s h. h }

  pub Preserves-raise : (e : Error) → Preserves P (raise {A = A} e)
  unfolding raise
  Preserves-raise e = record { step = λ s h. h }

  pub Preserves-lift : (r : Result A) → Preserves P (lift r)
  unfolding lift
  Preserves-lift r = record { step = λ s h. h }

  pub Preserves-gets : (f : S → A) → Preserves P (gets f)
  unfolding gets
  Preserves-gets f = record { step = λ s h. h }

  pub Preserves-choose :
      (b : Bool) (m k : Exec S A) → Preserves P m → Preserves P k → Preserves P (choose b m k)
  unfolding choose
  Preserves-choose true m k hm hk = hm
  Preserves-choose false m k hm hk = hk

module _ {S : Type 0} {P : S → Type 0} where
  pub Preserves-modify : (f : S → S) → ((s : S) → P s → P (f s)) → Preserves P (modify f)
  unfolding modify
  Preserves-modify f h = record { step = h }

module _ {S B : Type 0} {P : S → Type 0} where
  Preserves-caught :
      (b : Bool) (e : Error) (h : Error → Exec S B)
      → ((e : Error) → Preserves P (h e))
      → Preserves P (caught_by b e h)
  Preserves-caught true e h hh = record { step = (hh e).step }
  Preserves-caught false e h hh = record { step = λ s p. p }

module _ {S A B : Type 0} {P : S → Type 0} where
  Preserves-go_on :
      (r : Result A) (f : A → Exec S B) → ((a : A) → Preserves P (f a)) → Preserves P (go_on r f)
  Preserves-go_on (ok a) f h = h a
  Preserves-go_on (err e) f h = record { step = λ s p. p }

  pub Preserves-bind :
      (m : Exec S A) (f : A → Exec S B)
      → Preserves P m
      → ((a : A) → Preserves P (f a))
      → Preserves P (m >>= f)
  unfolding ◌>>=◌
  Preserves-bind m f hm hf = record {
    step = λ s p. let (r, s') = m s in (Preserves-go_on r f hf).step s' (hm.step s p);
  }

  pub Preserves-option :
      (o : Option A) (m : Exec S B) (k : A → Exec S B)
      → Preserves P m
      → ((a : A) → Preserves P (k a))
      → Preserves P (on_option o m k)
  unfolding on_option
  Preserves-option none m k hm hk = hm
  Preserves-option (some a) m k hm hk = hk a

  Preserves-handled :
      (r : Result A) (f : A → Exec S B) (h : Error → Exec S B)
      → ((a : A) → Preserves P (f a))
      → ((e : Error) → Preserves P (h e))
      → Preserves P (handled r f h)
  Preserves-handled (ok a) f h hf hh = record { step = (hf a).step }
  Preserves-handled (err e) f h hf hh = record {
    step = (Preserves-caught (is_caught e) e h hh).step;
  }

  pub Preserves-rescue :
      (m : Exec S A) (f : A → Exec S B) (h : Error → Exec S B)
      → Preserves P m
      → ((a : A) → Preserves P (f a))
      → ((e : Error) → Preserves P (h e))
      → Preserves P (rescue m f h)
  unfolding rescue
  Preserves-rescue m f h hm hf hh = record {
    step = λ s p. let (r, s') = m s in (Preserves-handled r f h hf hh).step s' (hm.step s p);
  }

pub ruleset preserve_rules = (
  Preserves-pure, Preserves-raise, Preserves-lift, Preserves-gets, Preserves-choose, Preserves-bind,
  Preserves-option, Preserves-rescue,
)
