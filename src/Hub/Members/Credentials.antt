-- ===== src/Hub/Members/Credentials.antt =====
-- What a rotation of a device's credential does to its old secret and to its new one.
use mathlib.Core.Path.{subst}
use sts2_the_perfect_defect.Prelude.{
  ◌≡◌, refl, sym, ap, ◌∙◌, String, true, false, Option, none, some, List, [], ◌∷◌, arith, ◌==◌,
  string_eq, option_eq, eq_iff, Bool-cases, inl, inr,
}
use sts2_the_perfect_defect.Prelude.Result.{
  ok, err, ◌>>=◌, Ensures, Ensures-ok, Ensures-guard, Ensures-expect,
}
use sts2_the_perfect_defect.Prelude.Table.{find, update, first_where, find-update_self, key-find}
use sts2_the_perfect_defect.Prelude.Keyed.{IsKeyed}
use sts2_the_perfect_defect.Contracts.Runtime.{Runtime}
use sts2_the_perfect_defect.Hub.Schema.{Db, Device, device_id, Member, log_event}
use sts2_the_perfect_defect.Hub.Jobs.{hub}
use sts2_the_perfect_defect.Hub.Members.Devices.{
  authenticate, authenticated_device, device_authorized, rotate_device, holds_token, token_hash,
  may_act, owner_is_active, is_some, is_inactive, named,
}

abbrev pub device_hash : Device → String
device_hash d = d.token_hash

pub turned : (a b : String) → (a == b) ≡ false → (b == a) ≡ false
turned a b h = ground (arith, h, eq_iff a b, eq_iff b a)

same_text : (a : String) → (a == a) ≡ true
same_text a = ground (arith, eq_iff a a)

pub first_where-find :
    (h : String) (t : List Device) → first_where (λ d. d.token_hash == h) t ≡ find device_hash h t
unfolding first_where find
first_where-find h [] = refl
first_where-find h (d ∷ t) = ground (arith, first_where-find h t)

-- A row that is written so that it passes a test which no row passed is the one that passes it.
found_written :
    (h id : String) (f : Device → Device) (t : List Device) (r : Device)
    → find device_hash h t ≡ none
    → find device_id id t ≡ some r
    → (device_hash (f r) == h) ≡ true
    → find device_hash h (update device_id id f t) ≡ some (f r)
unfolding find update
found_written h id f [] r free found written = absurd (ground arith)
found_written h id f (d ∷ t) r free found written = elim (Bool-cases (d.id == id)) [
  | inl e ↦ let same : d ≡ r = ground arith in rw (e, same, written) refl
  | inr e ↦
      let rest = found_written h id f t r (ground arith) (rw e at found) written in
      rw e (ground (arith, rest))
]

held_elsewhere :
    (h id : String) (t : List Device) (r : Device)
    → find device_hash h t ≡ none
    → find device_id id t ≡ some r
    → (r.token_hash == h) ≡ false
unfolding find
held_elsewhere h id [] r free found = absurd (ground arith)
held_elsewhere h id (d ∷ t) r free found = ground (arith, held_elsewhere h id t r)

owner_acts :
    (o : Option String) (members : List Member)
    → (o == some "") ≡ false
    → is_inactive (named o) members ≡ false
    → owner_is_active o members ≡ true
unfolding owner_is_active
owner_acts none members stated allowed = refl
owner_acts (some s) members stated allowed = ground arith

-- Where hashes are unique, the old hash of a row that is written with another one is gone.
gone_after :
    (h id : String) (f : Device → Device) (t : List Device) (r : Device)
    → IsKeyed device_hash t
    → find device_id id t ≡ some r
    → (r.token_hash == h) ≡ true
    → (device_hash (f r) == h) ≡ false
    → find device_hash h (update device_id id f t) ≡ none
unfolding find update
gone_after h id f [] r keyed found old new = absurd (ground arith)
gone_after h id f (d ∷ t) r keyed found old new = elim (Bool-cases (d.id == id)) [
  | inl e ↦
      let same : d ≡ r = ground arith in
      let hash : d.token_hash ≡ h = ap device_hash same ∙ (eq_iff r.token_hash h).0 old in
      rw (e, same, new) (rw hash at keyed.0)
  | inr e ↦
      let rest = gone_after h id f t r keyed.1 (rw e at found) old new in
      let other = held_elsewhere d.token_hash id t r keyed.0 (rw e at found) in
      let hash : r.token_hash ≡ h = (eq_iff r.token_hash h).0 old in
      let no_hold : (d.token_hash == h) ≡ false = turned _ _ (rw hash at other) in
      rw (e, no_hold) rest
]

module _ (rt : Runtime) where
  -- What a rotation that goes through has written, and what it has looked at.
  rotated :
      (device token : String) (d : Device) (db : Db)
      → find device_id device db.devices ≡ some d
      → Ensures
          (λ (r : Unit {0} × Db).
            (r.1.devices
              ≡ update device_id device
                  (λ x. record x { token_hash = token_hash rt token; active = true })
                  db.devices)
            × (r.1.members ≡ db.members)
            × (holds_token rt token d ≡ false)
            × (is_inactive (named d.owner_subject) db.members ≡ false)
            × (first_where (holds_token rt token) db.devices ≡ none))
          (rotate_device rt device token db)
  unfolding rotate_device log_event is_some
  rotated device token d db found = Ensures-guard _ _ _ λ _. Ensures-expect _ _ _ λ row e.
      let same : row ≡ d = ground arith in
      Ensures-guard _ _ _ λ unheld. Ensures-guard _ _ _ λ allowed. Ensures-guard _ _ _ λ fresh.
        Ensures-ok _ (
          refl,
          refl,
          ground (arith, ap (holds_token rt token) same),
          ground (arith, ap (λ x. is_inactive (named x.owner_subject) db.members) same),
          ground arith,
        )

  refused :
      (token : String) (db : Db)
      → first_where (holds_token rt token) db.devices ≡ none
      → authenticate rt token db ≡ err (hub "unauthorized")
  unfolding authenticate authenticated_device ◌>>=◌
  refused token db h = rw h refl

  may_go :
      (db : Db) (d : Device)
      → find device_id d.id db.devices ≡ some d
      → may_act db.members d ≡ true
      → device_authorized db d.id ≡ true
  unfolding device_authorized
  may_go db d stored acts =
      subst (λ o. elim o [ none ↦ false | some x ↦ may_act db.members x ] ≡ true) (sym stored) acts

  accepted :
      (token : String) (db : Db) (d : Device)
      → first_where (holds_token rt token) db.devices ≡ some d
      → find device_id d.id db.devices ≡ some d
      → may_act db.members d ≡ true
      → authenticate rt token db ≡ ok (d.id, db)
  unfolding authenticate authenticated_device ◌>>=◌
  accepted token db d h stored acts = rw (h, may_go db d stored acts) refl

  -- Where hashes are unique, the old secret of a device is refused after a rotation.
  pub rotate_device-authenticate :
      (device token old : String) (d : Device) (db db' : Db)
      → IsKeyed device_hash db.devices
      → find device_id device db.devices ≡ some d
      → d.token_hash ≡ rt.sha256 old
      → rotate_device rt device token db ≡ ok (tt, db')
      → authenticate rt old db' ≡ err (hub "unauthorized")
  rotate_device-authenticate device token old d db db' keyed found secret h =
      let (devices, _, unheld, _, _) = (rotated device token d db found).holds (tt, db') h in
      let held : (d.token_hash == rt.sha256 old) ≡ true =
        ground (arith, eq_iff d.token_hash (rt.sha256 old)) in
      let other : (rt.sha256 token == rt.sha256 old) ≡ false = turned _ _ (rw (← secret) unheld) in
      let gone =
        gone_after (rt.sha256 old) device
          (λ x. record x { token_hash = token_hash rt token; active = true }) db.devices d keyed
          found held other in
      refused old db' (ap (first_where (holds_token rt old)) devices ∙ first_where-find _ _ ∙ gone)

  -- The new secret is the device's, whether it was revoked before or not, unless its owner is the
  -- empty subject.
  pub authenticate-rotate_device :
      (device token : String) (d : Device) (db db' : Db)
      → find device_id device db.devices ≡ some d
      → (d.owner_subject == some "") ≡ false
      → rotate_device rt device token db ≡ ok (tt, db')
      → authenticate rt token db' ≡ ok (device, db')
  authenticate-rotate_device device token d db db' found named_owner h =
      let (devices, members, _, allowed, fresh) =
        (rotated device token d db found).holds (tt, db') h in
      let f : Device → Device = λ x. record x { token_hash = token_hash rt token; active = true } in
      let free : find device_hash (rt.sha256 token) db.devices ≡ none =
        sym (first_where-find (rt.sha256 token) db.devices) ∙ fresh in
      let held =
        found_written (rt.sha256 token) device f db.devices d free found
          (same_text (rt.sha256 token)) in
      let is_device : d.id ≡ device = key-find device_id device db.devices d found in
      subst (λ id. authenticate rt token db' ≡ ok (id, db')) is_device
        (accepted token db' (f d)
          (ap (first_where (holds_token rt token)) devices ∙ first_where-find _ _ ∙ held)
          (ap (find device_id d.id) devices
            ∙ ap (λ id. find device_id id (update device_id device f db.devices)) is_device
            ∙ find-update_self device_id device f db.devices d (λ r. refl) found)
          (ap (owner_is_active d.owner_subject) members
            ∙ owner_acts d.owner_subject db.members named_owner allowed))
