-- ===== src/Hub/Members/Shutout.antt =====
-- What is left to a member who was disabled.
use sts2_the_perfect_defect.Prelude.{
  ℕ, ◌≡◌, refl, String, Bool, true, false, ◌&&◌, Option, none, some, List, [], ◌∷◌, arith, All, ◌∙◌,
  ap, ◌==◌, string_eq, option_eq, if◌then◌else◌, option_beq_iff, Bool-cases, map, inl, inr, ◌⊎◌,
}
use sts2_the_perfect_defect.Prelude.Result.{
  ok, >>=-eq-ok, ok-injective, Ensures, Ensures-ok, Ensures-guard, Ensures-bind,
}
use sts2_the_perfect_defect.Prelude.Table.{find, update, find-update_self}
use sts2_the_perfect_defect.Boundary.Json.{Json}
use sts2_the_perfect_defect.Contracts.Runtime.{Runtime}
use sts2_the_perfect_defect.Hub.Schema.{
  Device, Member, member_id, MemberStatus, Role, member_status_eq, role_eq, active, disabled,
  invited, log_event,
}
use sts2_the_perfect_defect.Hub.Members.Tables.{Roll, Principal, Session, Flow}
use sts2_the_perfect_defect.Hub.Members.Settings.{Changes, or_else}
use sts2_the_perfect_defect.Hub.Members.Access.{find_member, set_member, note}
use sts2_the_perfect_defect.Hub.Members.Admins.{after_status-members, found_member}
use sts2_the_perfect_defect.Hub.Members.Manage.{
  update_member, updated_row, after_status, for_subject, shut_out, clear_sessions, close_device,
  without, deny, update_row, next_status, MemberView, public,
}
use sts2_the_perfect_defect.Hub.Members.Grants.{IsAdmin, IsAdmin-only}

-- What a disabled subject is left with: no active device, no session, no approved sign-in.
pub record IsShutOut (subject : String) (r : Roll) : Type 0 where
  pub devices : All (λ d. d.owner_subject ≡ some subject → d.active ≡ false) r.db.devices
  pub sessions : All (λ x. (x.subject == subject) ≡ false) r.sessions
  pub flows : All (λ f. (f.subject == some subject && f.status == "approved") ≡ false) r.flows

closed_devices :
    (s : String) (t : List Device)
    → All (λ d. d.owner_subject ≡ some s → d.active ≡ false) (map (close_device s) t)
closed_devices s [] = tt
closed_devices s (d ∷ t) = (closed s d, closed_devices s t)
  where
    closed :
        (s : String) (d : Device)
        → (close_device s d).owner_subject ≡ some s
        → (close_device s d).active ≡ false
    closed s d h = ground (arith, option_beq_iff d.owner_subject (some s))

without_subject :
    (s : String) (t : List Session) → All (λ x. (x.subject == s) ≡ false) (without s t)
unfolding without
without_subject s [] = tt
without_subject s (x ∷ t) = elim (Bool-cases (x.subject == s)) [
  | inl e ↦ rw e (without_subject s t)
  | inr e ↦ rw e (e, without_subject s t)
]

and-false : (b : Bool) → (b && false) ≡ false
and-false b = ground arith

abbrev is_approved : String → Flow → Bool
is_approved s f = f.subject == some s && f.status == "approved"

denied_if :
    (s : String) (f : Flow) (b : Bool)
    → is_approved s f ≡ b
    → is_approved s (if b then record f { status = "denied" } else f) ≡ false
denied_if s f true e = and-false (f.subject == some s)
denied_if s f false e = e

denied_flows : (s : String) (t : List Flow) → All (λ f. is_approved s f ≡ false) (map (deny s) t)
denied_flows s [] = tt
denied_flows s (f ∷ t) = (denied_if s f (is_approved s f) refl, denied_flows s t)

shut_out-IsShutOut : (s : String) (r : Roll) → IsShutOut s (shut_out s r)
unfolding clear_sessions
shut_out-IsShutOut s r = record {
  devices = closed_devices s r.db.devices;
  sessions = without_subject s r.sessions;
  flows = denied_flows s r.flows;
}

-- What a member of this status and subject is left with; nothing is said of one who is not
-- disabled, or who has no subject or an empty one.
abbrev pub IsLeft : MemberStatus → Option String → Roll → Type 0
IsLeft disabled (some s) r = ((s == "") ≡ true) ⊎ IsShutOut s r
IsLeft _ _ r = Unit

after_status-IsLeft :
    (status : MemberStatus) (o : Option String) (r : Roll)
    → IsLeft status o (after_status status o r)
unfolding for_subject
after_status-IsLeft invited o r = tt
after_status-IsLeft active o r = tt
after_status-IsLeft disabled none r = tt
after_status-IsLeft disabled (some s) r = elim (Bool-cases (s == "")) [
  | inl e ↦ inl e
  | inr e ↦ inr (rw e (shut_out-IsShutOut s r))
]

module _ (rt : Runtime) where
  shown_row :
      (r : Roll) (id : String) (v : MemberView)
      → public r id ≡ ok v
      → find member_id id r.db.members ≡ some v.row
  unfolding public
  shown_row r id v h =
      let (m, found, e) = >>=-eq-ok (find_member r id) _ h in
      let same : m ≡ v.row = ap (λ x. x.row) (ok-injective e) in
      found_member r id m found ∙ ap some same

  updated_found :
      (id : String) (current : Principal) (c : Changes) (m : Member) (role : Role)
      (status : MemberStatus) (r : Roll) (v : MemberView)
      → find member_id id r.db.members ≡ some m
      → public (update_row rt id current c m role status r) id ≡ ok v
      → v.row ≡ updated_row c role status m
  unfolding log_event
  updated_found id current c m role status r v found shown =
      let row = updated_row c role status in
      let after = shown_row (update_row rt id current c m role status r) id v shown in
      let kept = after_status-members status m.subject (set_member id row r) in
      let updated = find-update_self member_id id row r.db.members m (λ m. refl) found in
      let moved : find member_id id (update member_id id row r.db.members) ≡ some v.row =
        rw kept at after in
      cc (moved, updated)

  IsShutOut-log :
      (subject actor op id : String) (r : Roll)
      → IsShutOut subject r
      → IsShutOut subject (note actor op id r)
  unfolding log_event
  IsShutOut-log subject actor op id r h = record {
    devices = h.devices;
    sessions = h.sessions;
    flows = h.flows;
  }

  IsLeft-log :
      (status : MemberStatus) (o : Option String) (actor op id : String) (r : Roll)
      → IsLeft status o r
      → IsLeft status o (note actor op id r)
  IsLeft-log invited o actor op id r h = tt
  IsLeft-log active o actor op id r h = tt
  IsLeft-log disabled none actor op id r h = tt
  IsLeft-log disabled (some s) actor op id r (inl e) = inl e
  IsLeft-log disabled (some s) actor op id r (inr h) = inr (IsShutOut-log s actor op id r h)

  leaves_out :
      (p : Principal) (now : ℕ) (id : String) (value : Json) (r : Roll)
      → Ensures
          (λ (a : MemberView × Roll).
            IsAdmin rt p now r × IsLeft a.0.row.status a.0.row.subject a.1)
          (update_member rt p now id value r)
  unfolding update_member
  leaves_out p now id value r = Ensures-bind _ _ λ c _. Ensures-bind _ _ λ current allowed.
      Ensures-bind _ _ λ m found. Ensures-guard _ _ _ λ _. Ensures-bind _ _ λ v shown.
        let role = or_else c.role m.role in
        let status = next_status (or_else c.status m.status) m.subject in
        let row : v.row ≡ updated_row c role status m =
          updated_found id current c m role status r v (found_member r id m found) shown in
        Ensures-ok _ (
          (IsAdmin-only rt p now r).holds current allowed,
          rw row (
              IsLeft-log status m.subject current.subject "member_updated" id _
                (after_status-IsLeft status m.subject _)),
        )

  -- An update that goes through was asked for by an active administrator whose browser session had
  -- not run out. If it shows the member as disabled, with a subject that is not empty, it leaves
  -- that subject with no active device, no session and no approved sign-in.
  pub update_member-IsShutOut :
      (p : Principal) (now : ℕ) (id : String) (value : Json) (r r' : Roll) (v : MemberView)
      → update_member rt p now id value r ≡ ok (v, r')
      → IsAdmin rt p now r × IsLeft v.row.status v.row.subject r'
  update_member-IsShutOut p now id value r r' v h = (leaves_out p now id value r).holds (v, r') h
