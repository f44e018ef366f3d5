-- ===== src/Hub/Members/Access.antt =====
-- `initialized`, `member`, `authorize` and `admin` of stpd/hub/membership.py.
use sts2_the_perfect_defect.Prelude.{
  ℕ, String, Bool, false, ◌&&◌, ◌||◌, not, Option, none, some, List, [], ◌∷◌, ◌++◌, ltb, ◌==◌,
  string_eq, option_eq, nat_eq, if◌then◌else◌,
}
use sts2_the_perfect_defect.Prelude.Result.{
  Result, ok, err, integrity_error, ◌>>=◌, ◌>>◌, guard, expect, match_option, branch,
}
use sts2_the_perfect_defect.Prelude.Table.{find, update, first_where}
use sts2_the_perfect_defect.Boundary.Json.{str}
use sts2_the_perfect_defect.Contracts.Runtime.{Runtime}
use sts2_the_perfect_defect.Hub.Schema.{
  Device, Member, member_id, member_status_eq, role_eq, active, admin, invited, log_event,
}
use sts2_the_perfect_defect.Hub.Members.Tables.{Roll, RollTx, Principal, User, membership}
use sts2_the_perfect_defect.Hub.Members.Settings.{member_email}
use sts2_the_perfect_defect.Boundary.Texts.{sorted_set}

unfoldable pub find_member : Roll → String → Result Member
find_member r id = expect (find member_id id r.db.members) (membership "member_not_found")

abbrev pub note : String → String → String → Roll → Roll
note actor operation subject r = record r { db = log_event actor operation subject r.db }

-- `UPDATE identity_members SET ... WHERE id=?`
abbrev pub set_member : String → (Member → Member) → Roll → Roll
set_member id f r =
    let db = r.db in record r { db = record db { members = update member_id id f db.members } }

abbrev pub is_subject : String → Member → Bool
is_subject subject m = m.subject == some subject

-- An invitation that nobody has taken up yet
abbrev is_open_invitation : String → String → Member → Bool
is_open_invitation email issuer m =
    m.email == email && (m.issuer == issuer && (m.subject == none && m.status == invited))

abbrev same_user : Principal → User → Bool
same_user p u = u.subject == p.subject

abbrev same_access : Principal → User → Bool
same_access p u = u.issuer == p.issuer && u.access_subject == p.access_subject

user_of : User → String
user_of u = u.subject

-- `INSERT INTO identity_users ... ON CONFLICT(subject) DO UPDATE SET email`; the pair of issuer and
-- access subject is unique too.
unfoldable pub upsert_user : Principal → List User → Result (List User)
unfolding user_of
upsert_user p users =
    match_option (first_where (same_user p) users)
      (match_option (first_where (same_access p) users)
        (ok (
          users
          ++ record {
            subject = p.subject;
            issuer = p.issuer;
            access_subject = p.access_subject;
            email = p.email;
          }
            ∷ []))
        (λ other. err integrity_error))
      (λ old. ok (update user_of p.subject (λ u. record u { email = p.email }) users))

abbrev pub activated : Principal → Member → Member
activated p m = record m {
  subject = some p.subject;
  access_subject = some p.access_subject;
  status = active;
}

unfoldable pub owned : String → List Device → List String
owned subject [] = []
owned subject (d ∷ ds) =
    let rest = owned subject ds in if d.owner_subject == some subject then d.id ∷ rest else rest

unfoldable pub claims : String → List (String × String) → List String
claims id [] = []
claims id ((m, d) ∷ ss) = let rest = claims id ss in if m == id then d ∷ rest else rest

-- The last test of `authorize`, whether the row stands for this principal
abbrev pub stands_for : Principal → Member → Bool
stands_for p m =
    m.status == active
    && (m.issuer == p.issuer
        && (m.access_subject == some p.access_subject && m.subject == some p.subject))

abbrev pub granted : Principal → Roll → Member → Principal
granted p r m =
    let own = owned p.subject r.db.devices in
    let claimed = claims m.id r.scopes in
    record p {
      role = m.role;
      member_id = m.id;
      status = m.status;
      devices = sorted_set (own ++ claimed);
      owned_devices = sorted_set own;
      claim_devices = sorted_set claimed;
      enroll_devices = m.enroll_devices;
      device_quota = m.device_quota;
    }

abbrev pub is_named : Option String → String → Bool
is_named none id = false
is_named (some s) id = s == id

unfoldable pub settle_pending : String → Roll → Roll
settle_pending id r = if is_named r.pending_admin id then record r { pending_admin = none } else r

module _ (rt : Runtime) where
  -- The first sign-in of an invited member
  unfoldable pub take_up : Principal → RollTx (Option Member)
  take_up p r = do
    email ← member_email rt (some (str p.email))
    match_option (first_where (is_open_invitation email p.issuer) r.db.members) (ok (none, r))
        (λ row.
          branch (row.access_subject == none || row.access_subject == some p.access_subject)
            (do
              users ← upsert_user p r.users
              let r' = settle_pending row.id (
                  note p.subject "membership_activated" row.id
                    (set_member row.id (activated p) (record r { users = users })))
              row' ← find_member r' row.id
              ok (some row', r'))
            (ok (none, r)))

  -- `authorize`, which takes an invitation up where `activate` is set
  unfoldable pub authorize : Principal → Bool → RollTx Principal
  authorize p activate r = do
    guard r.is_initialized (membership "membership_not_initialized")
    (o, r') ←
        match_option (first_where (is_subject p.subject) r.db.members)
          (branch activate (take_up p r) (ok (none, r))) (λ row. ok (some row, r))
    row ← expect o (membership "membership_not_authorized")
    guard (stands_for p row) (membership "membership_not_authorized")
    ok (granted p r' row, r')

  -- `admin`: an administrator with a browser session that has not run out
  unfoldable pub admin_of : Principal → ℕ → Roll → Result Principal
  admin_of p now r = do
    (current, r') ← authorize p false r
    guard
        (current.role == admin
          && (not (current.session_binding == "") && ltb now current.expires_at))
        (membership "admin_browser_required")
    ok current
