-- ===== src/Boundary/Json.antt =====
-- JSON values, and equality of documents as the comparison of their sorted dumps makes it.
use sts2_the_perfect_defect.Prelude.{
  ℕ, String, ◌≡◌, refl, ◌↔◌, Bool, true, false, ◌&&◌, arith, Eq, ◌==◌, nat_eq, string_eq, eq_iff,
  nat_beq_iff,
}

-- `other_number` is a number that is no unsigned integer, by its text.
mutual
  pub data Json : Type 0 where
    null : Json
    flag : Bool → Json
    num : ℕ → Json
    other_number : String → Json
    str : String → Json
    arr : Items → Json
    obj : Fields → Json

  pub data Items : Type 0 where
    nil : Items
    cons : Json → Items → Items

  pub data Fields : Type 0 where
    end : Fields
    field : String → Json → Fields → Fields

and-eq_true : (a b : Bool) → (a && b) ≡ true → (a ≡ true) × (b ≡ true)
and-eq_true a b h = ground arith

abbrev flag_beq : Bool → Bool → Bool
flag_beq true true = true
flag_beq false false = true
flag_beq _ _ = false

unfoldable mutual
  pub json_beq : Json → Json → Bool
  json_beq null null = true
  json_beq (flag a) (flag b) = flag_beq a b
  json_beq (num a) (num b) = a == b
  json_beq (other_number a) (other_number b) = a == b
  json_beq (str a) (str b) = a == b
  json_beq (arr a) (arr b) = items_beq a b
  json_beq (obj a) (obj b) = fields_beq a b
  json_beq _ _ = false

  items_beq : Items → Items → Bool
  items_beq nil nil = true
  items_beq (cons a as') (cons b bs) = json_beq a b && items_beq as' bs
  items_beq _ _ = false

  fields_beq : Fields → Fields → Bool
  fields_beq end end = true
  fields_beq (field k a as') (field l b bs) = k == l && (json_beq a b && fields_beq as' bs)
  fields_beq _ _ = false

mutual
  unfolding json_beq items_beq fields_beq

  json_beq_refl : (a : Json) → json_beq a a ≡ true
  json_beq_refl null = refl
  json_beq_refl (flag true) = refl
  json_beq_refl (flag false) = refl
  json_beq_refl (num a) = ground (arith, nat_beq_iff a a)
  json_beq_refl (other_number a) = ground (arith, eq_iff a a)
  json_beq_refl (str a) = ground (arith, eq_iff a a)
  json_beq_refl (arr a) = items_beq_refl a
  json_beq_refl (obj a) = fields_beq_refl a

  items_beq_refl : (a : Items) → items_beq a a ≡ true
  items_beq_refl nil = refl
  items_beq_refl (cons a as') = ground (arith, json_beq_refl a, items_beq_refl as')

  fields_beq_refl : (a : Fields) → fields_beq a a ≡ true
  fields_beq_refl end = refl
  fields_beq_refl (field k a as') = ground (arith, eq_iff k k, json_beq_refl a, fields_beq_refl as')

mutual
  unfolding json_beq items_beq fields_beq

  json_beq_sound : (a b : Json) → json_beq a b ≡ true → a ≡ b
  json_beq_sound null null h = refl
  json_beq_sound (flag a) (flag b) h = ground arith
  json_beq_sound (num a) (num b) h = ground (arith, nat_beq_iff a b)
  json_beq_sound (other_number a) (other_number b) h = ground (arith, eq_iff a b)
  json_beq_sound (str a) (str b) h = ground (arith, eq_iff a b)
  json_beq_sound (arr a) (arr b) h = ground (arith, items_beq_sound a b h)
  json_beq_sound (obj a) (obj b) h = ground (arith, fields_beq_sound a b h)
  json_beq_sound _ _ h = cc

  items_beq_sound : (a b : Items) → items_beq a b ≡ true → a ≡ b
  items_beq_sound nil nil h = refl
  items_beq_sound (cons a as') (cons b bs) h =
      let (p, q) = and-eq_true (json_beq a b) (items_beq as' bs) h in
      cc (json_beq_sound a b p, items_beq_sound as' bs q)
  items_beq_sound _ _ h = cc

  fields_beq_sound : (a b : Fields) → fields_beq a b ≡ true → a ≡ b
  fields_beq_sound end end h = refl
  fields_beq_sound (field k a as') (field l b bs) h =
      let (p, q) = and-eq_true (k == l) (json_beq a b && fields_beq as' bs) h in
      let (q', r) = and-eq_true (json_beq a b) (fields_beq as' bs) q in
      cc ((eq_iff k l).0 p, json_beq_sound a b q', fields_beq_sound as' bs r)
  fields_beq_sound _ _ h = cc

pub json_beq_iff : (a b : Json) → (json_beq a b ≡ true) ↔ (a ≡ b)
json_beq_iff a b = (json_beq_sound a b, λ h. rw h (json_beq_refl b))

instance abbrev pub json_eq : Eq Json
json_eq = record { beq = json_beq; beq_iff = json_beq_iff }
