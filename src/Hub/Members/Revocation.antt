-- ===== src/Hub/Members/Revocation.antt =====
-- What `revoke` of stpd/hub/database.py does to the credentials of every device.
use mathlib.Core.Option
use sts2_the_perfect_defect.Prelude.{
  ◌≡◌, refl, sym, ap, ◌∙◌, String, Bool, false, not, ◌&&◌, Option, none, some, List, [], ◌∷◌, arith,
  ◌==◌, string_eq, eq_iff, Bool-cases, Option-cases, inl, inr, if◌then◌else◌,
}
use sts2_the_perfect_defect.Prelude.Result.{Result, ok, err, ◌>>=◌}
use sts2_the_perfect_defect.Prelude.Table.{find, update, first_where, find-update}
use sts2_the_perfect_defect.Contracts.Runtime.{Runtime}
use sts2_the_perfect_defect.Hub.Schema.{Db, Device, device_id, Member, log_event}
use sts2_the_perfect_defect.Hub.Calls.{committed}
use sts2_the_perfect_defect.Hub.Members.Devices.{
  authenticate, authenticated_device, device_authorized, revoke, holds_token, may_act,
}

-- Whom an authentication names, if it does
abbrev pub who : Result (String × Db) → Option String
who (ok (id, _)) = some id
who (err e) = none

abbrev pub all_but : String → Option String → Option String
all_but device none = none
all_but device (some id) = if id == device then none else some id

abbrev closed : Device → Device
closed d = record d { active = false }

abbrev id_of : Option Device → Option String
id_of none = none
id_of (some d) = some d.id

-- Whom a lookup of a secret lets in
abbrev admitted : Db → Option String → Option String
admitted db none = none
admitted db (some id) = if device_authorized db id then some id else none

module _ (rt : Runtime) where
  abbrev holder : String → List Device → Option String
  holder token t = id_of (first_where (holds_token rt token) t)

  -- A secret leads to the same name as before.
  holder-update :
      (device token : String) (t : List Device)
      → holder token (update device_id device closed t) ≡ holder token t
  unfolding first_where update
  holder-update device token [] = refl
  holder-update device token (d ∷ t) = elim (Bool-cases (d.id == device)) [
    | inl e ↦ rw e (ground arith)
    | inr e ↦ rw e (ground (arith, holder-update device token t))
  ]

  who-authenticate :
      (token : String) (db : Db)
      → who (authenticate rt token db) ≡ admitted db (holder token db.devices)
  unfolding authenticate authenticated_device ◌>>=◌
  who-authenticate token db = elim (Option-cases (first_where (holds_token rt token) db.devices)) [
    | inl none_holds ↦ rw none_holds refl
    | inr (d, holds) ↦ elim (Bool-cases (device_authorized db d.id)) [
      | inl e ↦ rw (holds, e) refl
      | inr e ↦ rw (holds, e) refl
    ]
  ]

abbrev acts : List Member → Option Device → Bool
acts members none = false
acts members (some d) = may_act members d

acts-stored :
    (id : String) (db : Db)
    → device_authorized db id ≡ acts db.members (find device_id id db.devices)
unfolding device_authorized
acts-stored id db = refl

acts-closed :
    (members : List Member) (o : Option Device) → acts members (Option.map closed o) ≡ false
acts-closed members none = refl
acts-closed members (some d) = refl

-- The row of the device may not act any more, and each other one as before.
acts-update :
    (device id : String) (members : List Member) (t : List Device)
    → acts members (find device_id id (update device_id device closed t))
      ≡ (not (device == id) && acts members (find device_id id t))
acts-update device id members t =
    ap (acts members) (find-update device_id device id closed t (λ d. refl))
    ∙ elim (Bool-cases (device == id)) [
      | inl e ↦ rw e (acts-closed members (find device_id device t))
      | inr e ↦ rw e refl
    ]

device_authorized-revoke :
    (device id : String) (db : Db)
    → device_authorized (committed (revoke device db) db) id
      ≡ (not (device == id) && device_authorized db id)
unfolding revoke log_event
device_authorized-revoke device id db =
    acts-stored id (committed (revoke device db) db)
    ∙ acts-update device id db.members db.devices
    ∙ ap (λ b. not (device == id) && b) (sym (acts-stored id db))

admitted-revoke :
    (device : String) (db : Db) (o : Option String)
    → admitted (committed (revoke device db) db) o ≡ all_but device (admitted db o)
admitted-revoke device db none = refl
admitted-revoke device db (some id) = elim (Bool-cases (device_authorized db id)) [
  | inl e ↦
      ground (arith, device_authorized-revoke device id db, eq_iff device id, eq_iff id device)
  | inr e ↦ ground (arith, device_authorized-revoke device id db)
]

module _ (rt : Runtime) where
  -- After a revocation no secret authenticates the device, and each one authenticates every other
  -- device exactly where it did before.
  pub authenticate-revoke :
      (device token : String) (db : Db)
      → who (authenticate rt token (committed (revoke device db) db))
        ≡ all_but device (who (authenticate rt token db))
  unfolding revoke log_event
  authenticate-revoke device token db =
      let db' = committed (revoke device db) db in
      who-authenticate rt token db'
      ∙ ap (admitted db') (holder-update rt device token db.devices)
      ∙ admitted-revoke device db (holder rt token db.devices)
      ∙ ap (all_but device) (sym (who-authenticate rt token db))
