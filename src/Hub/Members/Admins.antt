-- ===== src/Hub/Members/Admins.antt =====
-- The project is never left without an administrator, and who may administer it.
use sts2_the_perfect_defect.Prelude.{
  ℕ, ◌+◌, ◌≤◌, ◌≡◌, inl, inr, refl, String, Bool, true, false, ◌&&◌, not, Option, none, some, List,
  [], ◌∷◌, arith, total, total-append, leb, string_eq, option_eq, Bool-cases, Option-cases,
}
use sts2_the_perfect_defect.Prelude.Result.{
  Result, ok, err, ◌>>=◌, match_option, branch, Ensures, Ensures-ok, Ensures-err, Ensures-guard,
  Ensures-branch, Ensures-bind, Ensures-match, Ensures-expect,
}
use sts2_the_perfect_defect.Prelude.Table.{find, update, first_where, total-update, update-eq_self}
use sts2_the_perfect_defect.Boundary.Json.{Json}
use sts2_the_perfect_defect.Contracts.Runtime.{Runtime}
use sts2_the_perfect_defect.Hub.Schema.{
  Member, member_id, MemberStatus, member_status_eq, role_eq, active, invited, disabled, log_event,
}
use sts2_the_perfect_defect.Hub.Members.Tables.{Roll, Principal}
use sts2_the_perfect_defect.Hub.Members.Settings.{or_else}
use sts2_the_perfect_defect.Hub.Members.Access.{
  authorize, take_up, is_subject, find_member, set_member, activated, note, settle_pending,
  is_named,
}
use sts2_the_perfect_defect.Hub.Members.Manage.{
  active_admins, is_active_admin, one_when, update_member, updated_row, after_status, for_subject,
  shut_out, invite, insert_member, new_member, revoke_sessions, revoke_device, clear_sessions,
  next_status,
}
use sts2_the_perfect_defect.Hub.Members.Calls.{
  MemberCall, signing_in, inviting, updating, ending_sessions, revoking, settled, manage,
  manage_all,
}

abbrev admin_count : List Member → ℕ
admin_count t = total (λ m. one_when (is_active_admin m)) t

counted : (a b : Bool) → (a ≡ true → b ≡ true) → one_when a ≤ one_when b
counted true b h = rw (h refl) (omega arith)
counted false b h = omega arith

-- A change of one row that makes no active administrator another
count_update :
    (id : String) (f : Member → Member) (t : List Member)
    → ((m : Member) → is_active_admin m ≡ true → is_active_admin (f m) ≡ true)
    → admin_count t ≤ admin_count (update member_id id f t)
count_update id f t keeps = elim (Option-cases (find member_id id t)) [
  | inl e ↦ rw (update-eq_self member_id id f t e) (omega arith)
  | inr (m, found) ↦ omega (
    arith,
    total-update member_id (λ m. one_when (is_active_admin m)) id f t m found,
    counted (is_active_admin m) (is_active_admin (f m)) (keeps m),
  )
]

settle_pending-members : (id : String) (r : Roll) → (settle_pending id r).db.members ≡ r.db.members
unfolding settle_pending
settle_pending-members id r = elim (Bool-cases (is_named r.pending_admin id)) [
  | inl e ↦ rw e refl
  | inr e ↦ rw e refl
]

for_subject-members :
    (o : Option String) (r : Roll) → (for_subject o shut_out r).db.members ≡ r.db.members
unfolding for_subject clear_sessions
for_subject-members none r = refl
for_subject-members (some s) r = ground arith

pub after_status-members :
    (s : MemberStatus) (o : Option String) (r : Roll)
    → (after_status s o r).db.members ≡ r.db.members
after_status-members invited o r = refl
after_status-members active o r = refl
after_status-members disabled o r = for_subject-members o r

sessions-members :
    (o : Option String) (r : Roll) → (for_subject o clear_sessions r).db.members ≡ r.db.members
unfolding for_subject clear_sessions
sessions-members none r = refl
sessions-members (some s) r = ground arith

-- At least one active administrator, where there was one
abbrev Keeps : Roll → {A : Type 0} → A × Roll → Type 0
Keeps r p = 1 ≤ active_admins r → 1 ≤ active_admins p.1

pub found_member :
    (r : Roll) (id : String) (m : Member)
    → find_member r id ≡ ok m
    → find member_id id r.db.members ≡ some m
unfolding find_member ◌>>=◌
found_member r id m h = ground arith

counts :
    (a b : Bool) (n n' : ℕ)
    → n' + one_when a ≡ n + one_when b
    → not ((a && not b) && leb n 1) ≡ true
    → 1 ≤ n
    → 1 ≤ n'
counts true true n n' e g h = omega arith
counts true false n n' e g h = ground arith
counts false b n n' e g h = omega arith

-- The guard of an update: a change that takes an active administrator away needs a second one.
enough :
    (id : String) (f : Member → Member) (t : List Member) (m : Member)
    → find member_id id t ≡ some m
    → not ((is_active_admin m && not (is_active_admin (f m))) && leb (admin_count t) 1) ≡ true
    → 1 ≤ admin_count t
    → 1 ≤ admin_count (update member_id id f t)
enough id f t m found guarded some_admin =
    counts (is_active_admin m) (is_active_admin (f m)) (admin_count t)
      (admin_count (update member_id id f t))
      (total-update member_id (λ m. one_when (is_active_admin m)) id f t m found) guarded some_admin

committed_Keeps :
    {A : Type 0} (r : Roll) (o : Result (A × Roll))
    → Ensures (λ (p : A × Roll). 1 ≤ active_admins r → 1 ≤ active_admins p.1) o
    → 1 ≤ active_admins r
    → 1 ≤ active_admins (settled o r)
committed_Keeps r (ok (a, r')) e h = e.holds (a, r') refl h
committed_Keeps r (err x) e h = h

insert_keeps :
    (m : Member) (r : Roll) → Ensures (λ r'. active_admins r ≤ active_admins r') (insert_member m r)
unfolding insert_member
insert_keeps m r =
    Ensures-match _ _ _
      (λ _.
        Ensures-ok _
          (omega (arith, total-append (λ m. one_when (is_active_admin m)) r.db.members (m ∷ []))))
      λ _ _. Ensures-err _

module _ (rt : Runtime) where
  update-Keeps :
      (p : Principal) (now : ℕ) (id : String) (value : Json) (r : Roll)
      → Ensures (Keeps r) (update_member rt p now id value r)
  unfolding update_member log_event
  update-Keeps p now id value r = Ensures-bind _ _ λ c _. Ensures-bind _ _ λ current _.
      Ensures-bind _ _ λ m found. Ensures-guard _ _ _ λ guarded. Ensures-bind _ _ λ shown _.
        let role = or_else c.role m.role in
        let status = next_status (or_else c.status m.status) m.subject in
        let row = updated_row c role status in
        Ensures-ok _ λ one.
          rw (after_status-members status m.subject (set_member id row r))
            (enough id row r.db.members m (found_member r id m found) guarded one)

  invite-Keeps :
      (p : Principal) (now : ℕ) (value : Json) (fresh : String) (r : Roll)
      → Ensures (Keeps r) (invite rt p now value fresh r)
  unfolding invite log_event
  invite-Keeps p now value fresh r = Ensures-bind _ _ λ v _. Ensures-bind _ _ λ current _.
      Ensures-match _ _ _
        (λ _. Ensures-guard _ _ _ λ _. Ensures-bind _ _ λ r' inserted. Ensures-bind _ _ λ shown _.
          Ensures-ok _ λ one.
            omega (arith, (insert_keeps (new_member fresh current.issuer v) r).holds r' inserted))
        λ _ _. Ensures-err _

  sessions_keep :
      (p : Principal) (now : ℕ) (id : String) (r : Roll)
      → Ensures (Keeps r) (revoke_sessions rt p now id r)
  unfolding revoke_sessions log_event
  sessions_keep p now id r =
      Ensures-bind _ _ λ current _.
        Ensures-bind _ _ λ m _. Ensures-ok _ λ one. rw (sessions-members m.subject r) one

  take_up-Keeps : (p : Principal) (r : Roll) → Ensures (Keeps r) (take_up rt p r)
  unfolding take_up log_event
  take_up-Keeps p r = Ensures-bind _ _ λ email _.
      Ensures-match _ _ _ (λ _. Ensures-ok _ (λ one. one))
        λ row open_.
          Ensures-branch _ _ _
            (λ _. Ensures-bind _ _ λ users _. Ensures-bind _ _ λ row' _. Ensures-ok _ λ one.
              rw
                (settle_pending-members row.id (
                  note p.subject "membership_activated" row.id
                    (set_member row.id (activated p) (record r { users = users }))))
                (omega (
                  arith,
                  count_update row.id (activated p) r.db.members (λ m h. ground (arith, h)),
                )))
            (λ _. Ensures-ok _ (λ one. one))

  sign_in-Keeps :
      (p : Principal) (activate : Bool) (r : Roll)
      → Ensures (Keeps r) (
          match_option
            (first_where (is_subject p.subject) r.db.members)
            (branch activate (take_up rt p r) (ok (none, r)))
            (λ row. ok (some row, r)))
  sign_in-Keeps p activate r =
      Ensures-match _ _ _
        (λ _. Ensures-branch _ _ _ (λ _. take_up-Keeps p r) (λ _. Ensures-ok _ (λ one. one)))
        λ row _. Ensures-ok _ (λ one. one)

  authorize-Keeps :
      (p : Principal) (activate : Bool) (r : Roll) → Ensures (Keeps r) (authorize rt p activate r)
  unfolding authorize
  authorize-Keeps p activate r = Ensures-guard _ _ _ λ _. Ensures-bind _ _ λ found e.
      Ensures-bind _ _
        λ row _. Ensures-guard _ _ _ λ _. Ensures-ok _ ((sign_in-Keeps p activate r).holds found e)

  revoke-Keeps :
      (p : Principal) (now : ℕ) (device : String) (r : Roll)
      → Ensures (Keeps r) (revoke_device rt p now device r)
  unfolding revoke_device log_event
  revoke-Keeps p now device r = Ensures-bind _ _ λ (current, r') _.
      Ensures-guard _ _ _
        λ _. Ensures-expect _ _ _ λ d _. Ensures-guard _ _ _ λ _. Ensures-ok _ λ one. one

  manage_keeps :
      (c : MemberCall) (r : Roll) → 1 ≤ active_admins r → 1 ≤ active_admins (manage rt c r)
  unfolding manage
  manage_keeps (signing_in p b) r = committed_Keeps r _ (authorize-Keeps p b r)
  manage_keeps (inviting p n v f) r = committed_Keeps r _ (invite-Keeps p n v f r)
  manage_keeps (updating p n i v) r = committed_Keeps r _ (update-Keeps p n i v r)
  manage_keeps (ending_sessions p n i) r = committed_Keeps r _ (sessions_keep p n i r)
  manage_keeps (revoking p n d) r = committed_Keeps r _ (revoke-Keeps p n d r)

  -- Once there is an active administrator there always is one, whoever signs in, and whatever the
  -- administrators do, to each other and to themselves, in any order.
  pub last_admin_stays :
      (cs : List MemberCall) (r : Roll)
      → 1 ≤ active_admins r
      → 1 ≤ active_admins (manage_all rt cs r)
  unfolding manage_all
  last_admin_stays [] r h = h
  last_admin_stays (c ∷ cs) r h = last_admin_stays cs (manage rt c r) (manage_keeps c r h)
