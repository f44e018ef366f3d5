-- ===== src/Hub/Identity/Quota.antt =====
-- The devices that members own, and their quotas.
use sts2_the_perfect_defect.Prelude.{
  ℕ, ◌+◌, max, ◌≤◌, ◌≡◌, refl, String, Bool, true, false, some, List, [], ◌∷◌, arith, ltb,
  total-append, ◌==◌, string_eq, option_eq, if◌then◌else◌, Bool-cases, Option-cases, inl, inr,
  eq_iff, option_beq_iff,
}
use sts2_the_perfect_defect.Prelude.Result.{
  ok, Ensures, Ensures-ok, Ensures-guard, Ensures-branch, Ensures-bind, Ensures-expect,
}
use sts2_the_perfect_defect.Prelude.Table.{find, update, first_where, total-update, update-eq_self}
use sts2_the_perfect_defect.Boundary.Json.{Json}
use sts2_the_perfect_defect.Contracts.Runtime.{Runtime}
use sts2_the_perfect_defect.Hub.Schema.{Device, Member, device_id, log_event}
use sts2_the_perfect_defect.Hub.Members.{Roll, Principal, Flow, is_subject, one_when}
use sts2_the_perfect_defect.Hub.Members.Grants.{Grants, authorize-Grants}
use sts2_the_perfect_defect.Hub.Identity.{
  Service, decide, flow_row, active_owned, is_owned, claimed_by,
}
use sts2_the_perfect_defect.Hub.Identity.Approves.{Connects, registers, claims, approve-Approves}

abbrev counts : String → Device → ℕ
counts s d = one_when (is_owned s d)

at_most_one : (b : Bool) → one_when b ≤ 1
at_most_one b = ground arith

room-lt : (n q : ℕ) → ltb n q ≡ true → n + 1 ≤ q
room-lt n q h = ground arith

-- Nobody but the member who connects a device owns more devices afterwards.
counts_other :
    (p : Principal) (s : String) (d : Device)
    → (s == p.subject) ≡ false
    → d.owner_subject ≡ some p.subject
    → counts s d ≡ 0
counts_other p s d other own =
    ground (arith, own, option_beq_iff d.owner_subject (some s), eq_iff s p.subject)

updated_less :
    (s id : String) (f : Device → Device) (ds : List Device)
    → ((d : Device) → counts s (f d) ≡ 0)
    → active_owned s (update device_id id f ds) ≤ active_owned s ds
updated_less s id f ds nothing = elim (Option-cases (find device_id id ds)) [
  | inl e ↦ rw (update-eq_self device_id id f ds e) (omega arith)
  | inr (d, found) ↦ omega (arith, total-update device_id (counts s) id f ds d found, nothing d)
]

updated_once :
    (s id : String) (f : Device → Device) (ds : List Device)
    → active_owned s (update device_id id f ds) ≤ active_owned s ds + 1
updated_once s id f ds = elim (Option-cases (find device_id id ds)) [
  | inl e ↦ rw (update-eq_self device_id id f ds e) (omega arith)
  | inr (d, found) ↦
      omega
        (arith, total-update device_id (counts s) id f ds d found, at_most_one (is_owned s (f d)))
]

Connects-others :
    (p : Principal) (ds es : List Device) (f : Flow) (s : String)
    → Connects p ds es f
    → (s == p.subject) ≡ false
    → active_owned s es ≤ active_owned s ds
Connects-others p ds es f s (registers d _ _ own _ _ _ e) other =
    rw e (omega (arith, total-append (counts s) ds (d ∷ []), counts_other p s d other own))
Connects-others p ds es f s (claims id _ _ e) other =
    rw e
      (updated_less s id (claimed_by p f) ds (λ d. counts_other p s (claimed_by p f d) other refl))

own_device :
    (p : Principal) (id : String) (f : Device → Device) (ds : List Device) (d : Device)
    → find device_id id ds ≡ some d
    → d.owner_subject ≡ some p.subject
    → ((d : Device) → (f d).owner_subject ≡ some p.subject)
    → ((d : Device) → (f d).active ≡ d.active)
    → active_owned p.subject (update device_id id f ds) ≡ active_owned p.subject ds
own_device p id f ds d found own owns same =
    let kept : counts p.subject (f d) ≡ counts p.subject d = rw (owns d, same d, own) refl in
    omega (arith, total-update device_id (counts p.subject) id f ds d found, kept)

Connects-quota :
    (p : Principal) (ds es : List Device) (f : Flow)
    → Connects p ds es f
    → active_owned p.subject es ≤ max (active_owned p.subject ds) p.device_quota
Connects-quota p ds es f (registers d _ room own _ _ _ e) = rw e (
    omega (
      arith,
      total-append (counts p.subject) ds (d ∷ []),
      at_most_one (is_owned p.subject d),
      room-lt (active_owned p.subject ds) p.device_quota room,
    ))
Connects-quota p ds es f (claims id _ (inl room) e) = rw e (
    omega (
      arith,
      updated_once p.subject id (claimed_by p f) ds,
      room-lt (active_owned p.subject ds) p.device_quota room,
    ))
Connects-quota p ds es f (claims id _ (inr (j, d, has, found, own)) e) =
    let same : id ≡ j = some_text has in
    rw e (
      rw (own_device p id (claimed_by p f) ds d (rw same found) own (λ d. refl) (λ d. refl))
        (omega arith))
  where
    some_text : {a b : String} → some a ≡ some b → a ≡ b
    some_text h = cc

module _ (svc : Service) (rt : Runtime) where
  -- How many active devices anybody may have after a decision of `p`, whose row is `m`
  abbrev pub allowance : Principal → Member → Roll → String → ℕ
  allowance p m r s =
      let before = active_owned s r.db.devices in
      if s == p.subject then max before m.device_quota else before

  pub record KeepsQuota (p : Principal) (r r' : Roll) : Type 0 where
    pub row : Member
    pub found : first_where (is_subject p.subject) r.db.members ≡ some row
    pub within : (s : String) → active_owned s r'.db.devices ≤ allowance p row r s

  within_allowance :
      (p : Principal) (m : Member) (r r' : Roll) (s : String)
      → (s ≡ p.subject
          → active_owned s r'.db.devices ≤ max (active_owned s r.db.devices) m.device_quota)
      → ((s == p.subject) ≡ false → active_owned s r'.db.devices ≤ active_owned s r.db.devices)
      → active_owned s r'.db.devices ≤ allowance p m r s
  within_allowance p m r r' s own other = elim (Bool-cases (s == p.subject)) [
    | inl e ↦ rw e (own ((eq_iff s p.subject).0 e))
    | inr e ↦ rw e (other e)
  ]

  quota_kept :
      (p q : Principal) (r r' : Roll) (f : Flow)
      → Grants p q r
      → Connects q r.db.devices r'.db.devices f
      → KeepsQuota p r r'
  quota_kept p q r r' f g c = record {
    row = g.row;
    found = g.found;
    within = λ s.
        within_allowance p g.row r r' s
          (λ e. rw (e, ← g.subject, ← g.quota) (Connects-quota q r.db.devices r'.db.devices f c))
          (λ other. Connects-others q r.db.devices r'.db.devices f s c (rw g.subject other));
  }

  -- A decision that is committed leaves the member who takes it with no more active devices than
  -- before or than the quota of the member row, and nobody else with more than before.
  pub decide-KeepsQuota :
      (id : String) (value : Json) (p : Principal) (deny : Bool) (now : ℕ) (fresh : String)
      (r r' : Roll) (answer : String)
      → decide svc rt id value p deny now fresh r ≡ ok (answer, r')
      → KeepsQuota p r r'
  unfolding decide flow_row log_event
  decide-KeepsQuota id value p deny now fresh r r' answer h =
      let kept : Ensures (λ (a : String × Roll). KeepsQuota p r a.1)
          (decide svc rt id value p deny now fresh r) =
        Ensures-bind _ _ λ body _. Ensures-bind _ _ λ code _. Ensures-bind _ _ λ (q, r1) e.
          Ensures-expect _ _ _ λ row found. Ensures-guard _ _ _ λ _. Ensures-bind _ _ λ same _.
            Ensures-guard _ _ _ λ _.
              let (g, quiet) = authorize-Grants rt p q r r1 e in
              Ensures-branch _ _ _
                (λ _. Ensures-ok _ (record {
                  row = g.row;
                  found = g.found;
                  within = λ s.
                      within_allowance p g.row r r1 s (λ _. rw quiet (omega arith))
                        (λ _. rw quiet (omega arith));
                }))
                (λ _. record {
                  holds = λ a e'.
                      let (_, gives) = (approve-Approves svc rt row q now fresh r1).holds a e' in
                      quota_kept p q r a.1 row g (rw (← quiet) gives.devices);
                }) in
      kept.holds (answer, r') h
