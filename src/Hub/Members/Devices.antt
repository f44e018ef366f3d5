-- ===== src/Hub/Members/Devices.antt =====
-- `register`, `device_authorized`, `authenticated_device`, `authenticate`, `revoke` and
-- `rotate_device` of stpd/hub/database.py.
use sts2_the_perfect_defect.Prelude.{
  String, Bool, true, false, ◌&&◌, ◌||◌, not, Option, none, some, List, [], ◌∷◌, ◌++◌, ltb, leb,
  length, ◌==◌, string_eq, nat_eq, option_eq, if◌then◌else◌,
}
use sts2_the_perfect_defect.Prelude.Result.{Result, ok, integrity_error, ◌>>=◌, ◌>>◌, guard, expect}
use sts2_the_perfect_defect.Prelude.Table.{find, update, first_where}
use sts2_the_perfect_defect.Boundary.Checks.{codes, all}
use sts2_the_perfect_defect.Contracts.Runtime.{Runtime}
use sts2_the_perfect_defect.Hub.Schema.{
  Db, Device, device_id, Member, active, member_status_eq, log_event,
}
use sts2_the_perfect_defect.Hub.Jobs.{Tx, hub}

-- `WHERE subject=? AND status='active'`
abbrev pub is_active_owner : String → Member → Bool
is_active_owner subject m = m.subject == some subject && m.status == active

unfoldable pub is_some : {A : Type 0} → Option A → Bool
is_some none = false
is_some (some a) = true

-- The subquery on the owner: a device without one needs none.
unfoldable pub owner_is_active : Option String → List Member → Bool
owner_is_active none members = true
owner_is_active (some subject) members = is_some (first_where (is_active_owner subject) members)

abbrev pub may_act : List Member → Device → Bool
may_act members d = d.active && owner_is_active d.owner_subject members

unfoldable pub device_authorized : Db → String → Bool
device_authorized db device = elim (find device_id device db.devices) [
  | none ↦ false
  | some d ↦ may_act db.members d
]

-- `UPDATE devices SET ... WHERE id=?`
abbrev pub set_device : String → (Device → Device) → Db → Db
set_device id f db = record db { devices = update device_id id f db.devices }

-- `if row["owner_subject"] and ...`: an empty subject is as good as none.
abbrev pub named : Option String → Option String
named none = none
named (some s) = if s == "" then none else some s

abbrev pub is_inactive : Option String → List Member → Bool
is_inactive none members = false
is_inactive (some s) members = not (is_some (first_where (is_active_owner s) members))

module _ (rt : Runtime) where
  -- `token_hash`
  abbrev pub token_hash : String → String
  token_hash token = rt.sha256 token

  abbrev pub holds_token : String → Device → Bool
  holds_token token d = d.token_hash == token_hash token

  -- The primary key and the unique hash are refused where they are taken.
  unfoldable pub register : String → String → Tx (Unit {0})
  register device token db = do
    guard
        (ltb 0 (length (codes device))
          && (leb (length (codes device)) 128 && leb 32 (length (codes token))))
        (hub "invalid_device_credential")
    guard (not (is_some (find device_id device db.devices))) integrity_error
    guard (not (is_some (first_where (holds_token token) db.devices))) integrity_error
    ok (
      tt,
      log_event "admin" "device_registered" device (record db {
        devices =
            db.devices
            ++ record {
              id = device;
              token_hash = token_hash token;
              active = true;
              owner_subject = none;
              name = none;
              last_seen = none;
            }
              ∷ [];
      }),
    )

  unfoldable pub authenticated_device : Db → String → Result Device
  authenticated_device db token = do
    row ← expect (first_where (holds_token token) db.devices) (hub "unauthorized")
    guard (device_authorized db row.id) (hub "unauthorized")
    ok row

  unfoldable pub authenticate : String → Tx String
  authenticate token db = do row ← authenticated_device db token; ok (row.id, db)

  -- An operator's new credential for a device: the old one ends, and access is restored.
  unfoldable pub rotate_device : String → String → Tx (Unit {0})
  rotate_device device token db = do
    guard (leb 32 (length (codes token)) && all (λ c. not (c == 13 || c == 10)) (codes token))
        (hub "invalid_device_credential")
    row ← expect (find device_id device db.devices) (hub "device_rotation_not_applicable")
    guard (not (holds_token token row)) (hub "device_rotation_not_applicable")
    guard (not (is_inactive (named row.owner_subject) db.members)) (hub "device_owner_disabled")
    guard (not (is_some (first_where (holds_token token) db.devices))) integrity_error
    ok (
      tt,
      log_event "admin" "device_credential_rotated" device
          (set_device device (λ d. record d { token_hash = token_hash token; active = true }) db),
    )

-- `revoke`: nothing happens to a device that is not there, but the event.
unfoldable pub revoke : String → Tx (Unit {0})
revoke device db = ok (
  tt,
  log_event "admin" "device_revoked" device
      (set_device device (λ d. record d { active = false }) db),
)
