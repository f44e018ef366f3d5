-- ===== src/Hub/Members/Touches.antt =====
-- What the calls on the membership may do to devices, sessions, connections and rates.
use sts2_the_perfect_defect.Prelude.{
  ℕ, ◌≡◌, refl, String, Bool, false, Option, none, some, List, map, ◌==◌, string_eq, Bool-cases,
  inl, inr,
}
use sts2_the_perfect_defect.Prelude.Result.{
  Result, ok, err, match_option, branch, Ensures, Ensures-ok, Ensures-err, Ensures-guard,
  Ensures-branch, Ensures-bind, Ensures-match, Ensures-expect,
}
use sts2_the_perfect_defect.Prelude.Table.{update, first_where}
use sts2_the_perfect_defect.Boundary.Json.{Json}
use sts2_the_perfect_defect.Contracts.Runtime.{Runtime}
use sts2_the_perfect_defect.Hub.Schema.{
  Device, Member, device_id, MemberStatus, invited, active, disabled, log_event,
}
use sts2_the_perfect_defect.Hub.Members.Tables.{Roll, Principal, Flow, Session, Rate}
use sts2_the_perfect_defect.Hub.Members.Settings.{or_else}
use sts2_the_perfect_defect.Hub.Members.Access.{
  authorize, take_up, is_subject, set_member, activated, note, settle_pending, is_named,
}
use sts2_the_perfect_defect.Hub.Members.Manage.{
  update_member, updated_row, after_status, for_subject, shut_out, invite, insert_member,
  new_member, revoke_sessions, revoke_device, clear_sessions, next_status, deny, close_device,
  without,
}
use sts2_the_perfect_defect.Hub.Members.Calls.{
  MemberCall, signing_in, inviting, updating, ending_sessions, revoking, settled, manage,
}

-- The tables that the calls share with the identity service
pub record Shared : Type 0 where
  pub devices : List Device
  pub sessions : List Session
  pub flows : List Flow
  pub rates : List Rate

abbrev pub shared : Roll → Shared
shared r = record {
  devices = r.db.devices;
  sessions = r.sessions;
  flows = r.flows;
  rates = r.rates;
}

abbrev pub cleared : String → Shared → Shared
cleared s t = record t { sessions = without s t.sessions; flows = map (deny s) t.flows }

abbrev pub revoked : Device → Device
revoked d = record d { active = false }

pub data Touches (t u : Shared) : Type 0 where
  alone : u ≡ t → Touches t u
  ends : (s : String) → u ≡ cleared s t → Touches t u
  shuts :
      (s : String)
      → u ≡ (record (cleared s t) { devices = map (close_device s) t.devices })
      → Touches t u
  closes :
      (id : String)
      → u ≡ (record t { devices = update device_id id revoked t.devices })
      → Touches t u

abbrev Quiet : Roll → {A : Type 0} → A × Roll → Type 0
Quiet r p = shared p.1 ≡ shared r

settle_pending-shared : (id : String) (r : Roll) → shared (settle_pending id r) ≡ shared r
unfolding settle_pending
settle_pending-shared id r = elim (Bool-cases (is_named r.pending_admin id)) [
  | inl e ↦ rw e refl
  | inr e ↦ rw e refl
]

insert-shared : (m : Member) (r : Roll) → Ensures (λ r'. shared r' ≡ shared r) (insert_member m r)
unfolding insert_member
insert-shared m r = Ensures-match _ _ _ (λ _. Ensures-ok _ refl) λ _ _. Ensures-err _

subject_sessions :
    (o : Option String) (r : Roll) → Touches (shared r) (shared (for_subject o clear_sessions r))
unfolding for_subject clear_sessions
subject_sessions none r = alone refl
subject_sessions (some s) r = elim (Bool-cases (s == "")) [
  | inl e ↦ alone (rw e refl)
  | inr e ↦ ends s (rw e refl)
]

subject_out :
    (o : Option String) (r : Roll) → Touches (shared r) (shared (for_subject o shut_out r))
unfolding for_subject clear_sessions
subject_out none r = alone refl
subject_out (some s) r = elim (Bool-cases (s == "")) [
  | inl e ↦ alone (rw e refl)
  | inr e ↦ shuts s (rw e refl)
]

status-Touches :
    (s : MemberStatus) (o : Option String) (r : Roll)
    → Touches (shared r) (shared (after_status s o r))
status-Touches invited o r = alone refl
status-Touches active o r = alone refl
status-Touches disabled o r = subject_out o r

settled-Touches :
    {A : Type 0} (r : Roll) (o : Result (A × Roll))
    → Ensures (λ (p : A × Roll). Touches (shared r) (shared p.1)) o
    → Touches (shared r) (shared (settled o r))
settled-Touches r (ok (a, r')) e = e.holds (a, r') refl
settled-Touches r (err x) e = alone refl

module _ (rt : Runtime) where
  take_up-Quiet : (p : Principal) (r : Roll) → Ensures (Quiet r) (take_up rt p r)
  unfolding take_up log_event
  take_up-Quiet p r = Ensures-bind _ _ λ email _.
      Ensures-match _ _ _ (λ _. Ensures-ok _ refl)
        λ row open_.
          Ensures-branch _ _ _
            (λ _. Ensures-bind _ _ λ users _. Ensures-bind _ _ λ row' _. Ensures-ok _ (
              settle_pending-shared row.id (
                note p.subject "membership_activated" row.id
                  (set_member row.id (activated p) (record r { users = users })))))
            (λ _. Ensures-ok _ refl)

  sign_in-Quiet :
      (p : Principal) (activate : Bool) (r : Roll)
      → Ensures (Quiet r) (
          match_option
            (first_where (is_subject p.subject) r.db.members)
            (branch activate (take_up rt p r) (ok (none, r)))
            (λ row. ok (some row, r)))
  sign_in-Quiet p activate r =
      Ensures-match _ _ _
        (λ _. Ensures-branch _ _ _ (λ _. take_up-Quiet p r) (λ _. Ensures-ok _ refl))
        λ row _. Ensures-ok _ refl

  pub authorize-Quiet :
      (p : Principal) (activate : Bool) (r : Roll) → Ensures (Quiet r) (authorize rt p activate r)
  unfolding authorize
  authorize-Quiet p activate r = Ensures-guard _ _ _ λ _. Ensures-bind _ _ λ found e.
      Ensures-bind _ _
        λ row _. Ensures-guard _ _ _ λ _. Ensures-ok _ ((sign_in-Quiet p activate r).holds found e)

  invite-Quiet :
      (p : Principal) (now : ℕ) (value : Json) (fresh : String) (r : Roll)
      → Ensures (Quiet r) (invite rt p now value fresh r)
  unfolding invite log_event
  invite-Quiet p now value fresh r = Ensures-bind _ _ λ v _. Ensures-bind _ _ λ current _.
      Ensures-match _ _ _
        (λ _. Ensures-guard _ _ _ λ _. Ensures-bind _ _ λ r' inserted. Ensures-bind _ _ λ shown _.
          Ensures-ok _ ((insert-shared (new_member fresh current.issuer v) r).holds r' inserted))
        λ _ _. Ensures-err _

  pub manage-Touches : (c : MemberCall) (r : Roll) → Touches (shared r) (shared (manage rt c r))
  unfolding manage update_member revoke_sessions revoke_device log_event
  manage-Touches (signing_in p b) r =
      settled-Touches r _ (record { holds = λ a e. alone ((authorize-Quiet p b r).holds a e) })
  manage-Touches (inviting p n v f) r =
      settled-Touches r _ (record { holds = λ a e. alone ((invite-Quiet p n v f r).holds a e) })
  manage-Touches (updating p n i v) r = settled-Touches r _ (
      Ensures-bind _ _ λ c _. Ensures-bind _ _ λ current _. Ensures-bind _ _ λ m _.
        Ensures-guard _ _ _ λ _. Ensures-bind _ _ λ shown _.
          let role = or_else c.role m.role in
          let status = next_status (or_else c.status m.status) m.subject in
          Ensures-ok _
            (status-Touches status m.subject (set_member i (updated_row c role status) r)))
  manage-Touches (ending_sessions p n i) r = settled-Touches r _ (
      Ensures-bind _ _
        λ current _. Ensures-bind _ _ λ m _. Ensures-ok _ (subject_sessions m.subject r))
  manage-Touches (revoking p n d) r = settled-Touches r _ (
      Ensures-bind _ _ λ (current, r') _.
        Ensures-guard _ _ _
          λ _. Ensures-expect _ _ _ λ x _. Ensures-guard _ _ _ λ _. Ensures-ok _ (closes d refl))
