-- ===== src/Hub/Members/Grants.antt =====
-- What an authorization grants, and who may administer the project.
use sts2_the_perfect_defect.Prelude.{
  ℕ, ◌<◌, ◌≡◌, refl, true, false, Option, none, some, arith, ◌∙◌, ◌==◌, string_eq, option_eq,
  eq_iff, option_beq_iff, String, Bool, List, [], ◌∷◌, ◌&&◌, ◌||◌, any, inl, inr, Bool-cases,
}
use sts2_the_perfect_defect.Prelude.Result.{
  ok, match_option, branch, Ensures, Ensures-ok, Ensures-guard, Ensures-branch, Ensures-bind,
  Ensures-match, Ensures-expect,
}
use sts2_the_perfect_defect.Prelude.Table.{first_where}
use sts2_the_perfect_defect.Boundary.Texts.{
  named_in, sorted_set, sorted_set-named, append-named, IsAscending, sorted_set-IsAscending,
}
use sts2_the_perfect_defect.Contracts.Runtime.{Runtime}
use sts2_the_perfect_defect.Hub.Schema.{
  Device, Member, member_status_eq, role_eq, active, admin, role_beq_iff, member_status_beq_iff,
}
use sts2_the_perfect_defect.Hub.Members.Tables.{Roll, Principal}
use sts2_the_perfect_defect.Hub.Members.Access.{
  owned, claims, authorize, admin_of, stands_for, is_subject, granted, take_up,
}

-- Whether a table has a device of this name that the subject owns
abbrev is_owned : String → Roll → String → Bool
is_owned subject r id = any (λ d. d.id == id && d.owner_subject == some subject) r.db.devices

-- Whether a member may claim the device
abbrev is_claimed : String → Roll → String → Bool
is_claimed member r id = any (λ s. s.0 == member && s.1 == id) r.scopes

-- The texts that pass a test, each once, in ascending order
abbrev pub AreThose : (String → Bool) → List String → Type 0
AreThose test ids = IsAscending ids × ((id : String) → named_in id ids ≡ test id)

-- The stored row that grants a principal its rights, and these
pub record Grants (p q : Principal) (r : Roll) : Type 0 where
  pub row : Member
  pub found : first_where (is_subject p.subject) r.db.members ≡ some row
  pub is_active : row.status ≡ active
  pub issuer : row.issuer ≡ p.issuer
  pub access_subject : row.access_subject ≡ some p.access_subject
  pub role : q.role ≡ row.role
  pub status : q.status ≡ row.status
  pub enroll_devices : q.enroll_devices ≡ row.enroll_devices
  pub member_id : q.member_id ≡ row.id
  pub subject : q.subject ≡ p.subject
  pub quota : q.device_quota ≡ row.device_quota
  pub identity : (q.email ≡ p.email) × (q.issuer ≡ p.issuer) × (q.access_subject ≡ p.access_subject)
  pub owned_devices : AreThose (is_owned p.subject r) q.owned_devices
  pub claim_devices : AreThose (is_claimed row.id r) q.claim_devices
  pub devices : AreThose (λ id. is_owned p.subject r id || is_claimed row.id r id) q.devices
  pub session : (q.session_binding ≡ p.session_binding) × (q.expires_at ≡ p.expires_at)

owned-named :
    (subject id : String) (ds : List Device)
    → named_in id (owned subject ds) ≡ any (λ d. d.id == id && d.owner_subject == some subject) ds
unfolding named_in owned
owned-named subject id [] = refl
owned-named subject id (d ∷ ds) =
    let rest = owned-named subject id ds in
    elim (Bool-cases (d.owner_subject == some subject)) [
      | inl e ↦ rw e (ground (arith, rest))
      | inr e ↦ rw e (ground (arith, rest))
    ]

claims-named :
    (member id : String) (ss : List (String × String))
    → named_in id (claims member ss) ≡ any (λ s. s.0 == member && s.1 == id) ss
unfolding named_in claims
claims-named member id [] = refl
claims-named member id ((m, d) ∷ ss) =
    let rest = claims-named member id ss in
    elim (Bool-cases (m == member)) [
      | inl e ↦ rw e (ground (arith, rest))
      | inr e ↦ rw e (ground (arith, rest))
    ]

sorted_set-AreThose :
    (test : String → Bool) (ids : List String)
    → ((id : String) → named_in id ids ≡ test id)
    → AreThose test (sorted_set ids)
sorted_set-AreThose test ids h = (sorted_set-IsAscending ids, λ id. sorted_set-named id ids ∙ h id)

stands_row :
    (p : Principal) (r : Roll) (row : Member)
    → first_where (is_subject p.subject) r.db.members ≡ some row
    → stands_for p row ≡ true
    → Grants p (granted p r row) r
stands_row p r row found stands = record {
  row = row;
  found = found;
  is_active = ground (arith, member_status_beq_iff row.status active);
  issuer = ground (arith, eq_iff row.issuer p.issuer);
  access_subject = ground (arith, option_beq_iff row.access_subject (some p.access_subject));
  role = refl;
  member_id = refl;
  subject = refl;
  quota = refl;
  status = refl;
  enroll_devices = refl;
  identity = (refl, refl, refl);
  owned_devices = sorted_set-AreThose _ _ (λ id. owned-named p.subject id r.db.devices);
  claim_devices = sorted_set-AreThose _ _ (λ id. claims-named row.id id r.scopes);
  devices = sorted_set-AreThose _ _ (λ id.
      append-named id (owned p.subject r.db.devices) (claims row.id r.scopes)
      ∙ rw (owned-named p.subject id r.db.devices, claims-named row.id id r.scopes) refl);
  session = (refl, refl);
}

module _ (rt : Runtime) where
  sign_in_found :
      (p : Principal) (r : Roll)
      → Ensures
          (λ (a : Option Member × Roll).
            (first_where (is_subject p.subject) r.db.members ≡ a.0) × (a.1 ≡ r))
          (match_option
            (first_where (is_subject p.subject) r.db.members)
            (branch false (take_up rt p r) (ok (none, r)))
            (λ row. ok (some row, r)))
  sign_in_found p r =
      Ensures-match _ _ _
        (λ free. Ensures-branch _ _ _ (λ e. absurd (cc e)) (λ _. Ensures-ok _ (free, refl)))
        λ row found. Ensures-ok _ (found, refl)

  authorize-Grants' :
      (p : Principal) (r : Roll)
      → Ensures (λ (a : Principal × Roll). Grants p a.0 r × (a.1 ≡ r)) (authorize rt p false r)
  unfolding authorize
  authorize-Grants' p r = Ensures-guard _ _ _ λ _. Ensures-bind _ _ λ found e.
      Ensures-expect _ _ _ λ row has. Ensures-guard _ _ _ λ stands.
        let (first, same) = (sign_in_found p r).holds found e in
        Ensures-ok _ (rw same (stands_row p r row (first ∙ has) stands, refl))

  -- Without a sign-in, an authorization changes nothing, and grants what the stored row of the
  -- subject says, which is active and of the same access identity: its role, status, enrolment and quota, the
  -- devices that the subject owns and those that the member may claim, each listed once in order.
  pub authorize-Grants :
      (p q : Principal) (r r' : Roll)
      → authorize rt p false r ≡ ok (q, r')
      → Grants p q r × (r' ≡ r)
  authorize-Grants p q r r' h = (authorize-Grants' p r).holds (q, r') h

  -- Only an active administrator, in a browser session that has not run out.
  abbrev pub IsAdmin : Principal → ℕ → Roll → Type 0
  IsAdmin p now r =
      (m : Member) × (first_where (is_subject p.subject) r.db.members ≡ some m)
      × (m.role ≡ admin)
      × (m.status ≡ active)
      × ((p.session_binding == "") ≡ false)
      × (now < p.expires_at)

  pub IsAdmin-only :
      (p : Principal) (now : ℕ) (r : Roll) → Ensures (λ _. IsAdmin p now r) (admin_of rt p now r)
  unfolding admin_of
  IsAdmin-only p now r = Ensures-bind _ _ λ a e. Ensures-guard _ _ _ λ allowed.
      let (g, same) = (authorize-Grants' p r).holds a e in
      Ensures-ok _ (
        g.row,
        g.found,
        ground (arith, g.role, role_beq_iff a.0.role admin),
        g.is_active,
        ground (arith, g.session),
        ground (arith, g.session),
      )
