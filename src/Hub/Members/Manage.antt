-- ===== src/Hub/Members/Manage.antt =====
-- `insert`, `public`, `invite`, `update`, `clear_sessions`, `revoke_sessions` and `revoke_device` of
-- stpd/hub/membership.py.
use sts2_the_perfect_defect.Prelude.{
  ℕ, String, Bool, false, ◌&&◌, ◌||◌, not, Option, none, some, List, [], ◌∷◌, ◌++◌, map, leb, ltb,
  length, total, ◌==◌, string_eq, option_eq, nat_eq, if◌then◌else◌,
}
use sts2_the_perfect_defect.Prelude.Result.{
  Result, ok, err, integrity_error, ◌>>=◌, ◌>>◌, guard, expect, match_option,
}
use sts2_the_perfect_defect.Prelude.Table.{find, first_where}
use sts2_the_perfect_defect.Boundary.Json.{Json}
use sts2_the_perfect_defect.Contracts.Runtime.{Runtime}
use sts2_the_perfect_defect.Hub.Schema.{
  Device, device_id, Member, member_id, MemberStatus, Role, member_status_eq, role_eq, active,
  admin, invited, disabled,
}
use sts2_the_perfect_defect.Hub.Members.Devices.{set_device}
use sts2_the_perfect_defect.Hub.Members.Tables.{Roll, RollTx, Principal, Session, Flow, membership}
use sts2_the_perfect_defect.Hub.Members.Settings.{
  Changes, Invitation, settings, invitation, or_else,
}
use sts2_the_perfect_defect.Hub.Members.Access.{find_member, set_member, note, authorize, admin_of}

abbrev pub one_when : Bool → ℕ
one_when b = if b then 1 else 0

-- `COUNT(*) ... WHERE role='admin' AND status='active'`
abbrev pub is_active_admin : Member → Bool
is_active_admin m = m.role == admin && m.status == active

abbrev pub active_admins : Roll → ℕ
active_admins r = total (λ m. one_when (is_active_admin m)) r.db.members

abbrev pub owns : Option String → Device → Bool
owns none d = false
owns (some s) d = d.owner_subject == some s

-- `public`, without its two time stamps
pub record MemberView : Type 0 where
  pub row : Member
  pub owned_device_count : ℕ
  pub active_device_count : ℕ

abbrev pub view_of : Roll → Member → MemberView
view_of r m = record {
  row = m;
  owned_device_count = total (λ d. one_when (owns m.subject d)) r.db.devices;
  active_device_count = total (λ d. one_when (owns m.subject d && d.active)) r.db.devices;
}

unfoldable pub public : Roll → String → Result MemberView
public r id = do m ← find_member r id; ok (view_of r m)

abbrev pub has_email : String → Member → Bool
has_email email m = m.email == email

abbrev pub new_member : String → String → Invitation → Member
new_member fresh issuer v = record {
  id = fresh;
  email = v.email;
  issuer = issuer;
  access_subject = none;
  subject = none;
  role = v.role;
  status = invited;
  enroll_devices = v.enroll_devices;
  device_quota = v.device_quota;
}

-- `insert` of an invited member, who has no profile yet
unfoldable pub insert_member : Member → Roll → Result Roll
insert_member m r =
    match_option (find member_id m.id r.db.members)
      (let db = r.db in ok (record r { db = record db { members = db.members ++ m ∷ [] } }))
      (λ old. err integrity_error)

-- `DELETE FROM identity_sessions WHERE subject=?`
unfoldable pub without : String → List Session → List Session
without subject [] = []
without subject (s ∷ ss) =
    let rest = without subject ss in if s.subject == subject then rest else s ∷ rest

abbrev pub deny : String → Flow → Flow
deny subject f =
    if f.subject == some subject && f.status == "approved"
    then record f { status = "denied" }
    else f

unfoldable pub clear_sessions : String → Roll → Roll
unfolding without
clear_sessions subject r = record r {
  sessions = without subject r.sessions;
  flows = map (deny subject) r.flows;
}

abbrev pub close_device : String → Device → Device
close_device subject d = if d.owner_subject == some subject then record d { active = false } else d

-- `UPDATE devices SET active=0 WHERE owner_subject=?`
abbrev pub close_devices : String → Roll → Roll
close_devices subject r =
    let db = r.db in record r { db = record db { devices = map (close_device subject) db.devices } }

-- The status that an update asks for; a member who never signed in is invited, not active.
abbrev pub next_status : MemberStatus → Option String → MemberStatus
next_status active none = invited
next_status s subject = s

abbrev pub removes_admin : Member → Role → MemberStatus → Bool
removes_admin m role status = is_active_admin m && not (role == admin && status == active)

abbrev pub updated_row : Changes → Role → MemberStatus → Member → Member
updated_row c role status m = record m {
  role = role;
  status = status;
  enroll_devices = or_else c.enroll_devices m.enroll_devices;
  device_quota = or_else c.device_quota m.device_quota;
}

-- `if ... and member["subject"]`: an empty subject is as good as none.
unfoldable pub for_subject : Option String → (String → Roll → Roll) → Roll → Roll
for_subject none f r = r
for_subject (some s) f r = if s == "" then r else f s r

abbrev pub shut_out : String → Roll → Roll
shut_out subject r = close_devices subject (clear_sessions subject r)

abbrev pub after_status : MemberStatus → Option String → Roll → Roll
after_status disabled subject r = for_subject subject shut_out r
after_status s subject r = r

module _ (rt : Runtime) where
  -- `fresh` is `secrets.token_hex(16)`.
  unfoldable pub invite : Principal → ℕ → Json → String → RollTx MemberView
  invite p now value fresh r = do
    v ← invitation rt value
    current ← admin_of rt p now r
    match_option (first_where (has_email v.email) r.db.members)
        (do
          guard (ltb (length r.db.members) 1000) (membership "member_capacity")
          r' ← insert_member (new_member fresh current.issuer v) r
          let r'' = note current.subject "member_invited" fresh r'
          shown ← public r'' fresh
          ok (shown, r''))
        (λ old. err (membership "member_already_exists"))

  -- The change of the row, with what follows from a member being disabled
  abbrev pub update_row : String → Principal → Changes → Member → Role → MemberStatus → Roll → Roll
  update_row id current c m role status r =
      note current.subject "member_updated" id
        (after_status status m.subject (set_member id (updated_row c role status) r))

  unfoldable pub update_member : Principal → ℕ → String → Json → RollTx MemberView
  update_member p now id value r = do
    c ← settings value
    current ← admin_of rt p now r
    m ← find_member r id
    let role = or_else c.role m.role
    let status = next_status (or_else c.status m.status) m.subject
    guard (not (removes_admin m role status && leb (active_admins r) 1))
        (membership "last_admin_required")
    let r' = update_row id current c m role status r
    shown ← public r' id
    ok (shown, r')

  unfoldable pub revoke_sessions : Principal → ℕ → String → RollTx (Unit {0})
  revoke_sessions p now id r = do
    current ← admin_of rt p now r
    m ← find_member r id
    ok (
      tt,
      note current.subject "member_sessions_revoked" id (for_subject m.subject clear_sessions r),
    )

  unfoldable pub revoke_device : Principal → ℕ → String → RollTx (Unit {0})
  revoke_device p now device r = do
    (current, r') ← authorize rt p false r
    guard (not (current.session_binding == "") && ltb now current.expires_at)
        (membership "browser_identity_required")
    d ← expect (find device_id device r.db.devices) (membership "identity_device_not_authorized")
    guard (current.role == admin || d.owner_subject == some current.subject)
        (membership "identity_device_not_authorized")
    let db = set_device device (λ d. record d { active = false }) r.db
    ok (tt, note current.subject "device_revoked" device (record r { db = db }))
