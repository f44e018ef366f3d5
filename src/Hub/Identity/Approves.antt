-- ===== src/Hub/Identity/Approves.antt =====
-- What an approved connection does to the tables.
use sts2_the_perfect_defect.Prelude.{
  ℕ, ◌+◌, ◌<◌, ◌≡◌, refl, sym, ap, ◌∙◌, String, true, false, not, ◌⊎◌, option_beq_iff, Option, none,
  some, List, [], ◌∷◌, ◌++◌, arith, ltb, ◌==◌, string_eq, nat_eq, option_eq, Bool-cases, inl, inr,
  min,
}
use sts2_the_perfect_defect.Prelude.Result.{
  Ensures, Ensures-ok, Ensures-err, Ensures-guard, Ensures-bind, Ensures-match,
}
use sts2_the_perfect_defect.Prelude.Table.{find, update, first_where}
use sts2_the_perfect_defect.Contracts.Runtime.{Runtime}
use sts2_the_perfect_defect.Hub.Schema.{Db, Device, device_id, log_event, seconds}
use sts2_the_perfect_defect.Hub.Members.{Roll, Principal, Flow, Session, is_some}
use sts2_the_perfect_defect.Hub.Members.Touches.{Shared, shared}
use sts2_the_perfect_defect.Hub.Identity.{
  claimed_by, Service, live_sessions, sessions_of, active_owned, eligible_with, found_by,
  found_claimable, flow_id, flow_token, connect, approve, approved, insert_session, insert_device,
  session_hash, has_hash, device, session_seconds,
}

-- A subject that may own one more active device, or that owns the device already
abbrev pub HasRoom : Principal → List Device → Type 0
HasRoom p ds = ltb (active_owned p.subject ds) p.device_quota ≡ true

abbrev pub Owns : Principal → List Device → Option String → Type 0
Owns p ds o =
    (id : String) × (d : Device) × (o ≡ some id)
    × (find device_id id ds ≡ some d)
    × (d.owner_subject ≡ some p.subject)

-- The device of an approved connection
pub data Connects (p : Principal) (ds es : List Device) (f : Flow) : Type 0 where
  registers :
      (d : Device)
      → f.device_id ≡ none
      → HasRoom p ds
      → d.owner_subject ≡ some p.subject
      → d.active ≡ true
      → find device_id d.id ds ≡ none
      → first_where (has_hash d.token_hash) ds ≡ none
      → es ≡ ds ++ d ∷ []
      → Connects p ds es f
  claims :
      (id : String)
      → f.device_id ≡ some id
      → HasRoom p ds ⊎ Owns p ds (some id)
      → es ≡ update device_id id (claimed_by p f) ds
      → Connects p ds es f

pub record Closes (id : String) (fs gs : List Flow) : Type 0 where
  pub change : Flow → Flow
  pub same_id : (f : Flow) → (change f).id ≡ f.id
  pub closed : (f : Flow) → ((change f).status == "pending") ≡ false
  pub changed : gs ≡ update flow_id id change fs

pub record Approves (row : Flow) (p : Principal) (now : ℕ) (t u : Shared) : Type 0 where
  pub flows : Closes row.id t.flows u.flows
  pub session : Session
  pub subject : session.subject ≡ p.subject
  pub lasts : now < session.expires_at
  pub room : ltb (sessions_of p.subject (live_sessions now t.sessions)) 32 ≡ true
  pub fresh : find session_hash session.token_hash (live_sessions now t.sessions) ≡ none
  pub sessions : u.sessions ≡ live_sessions now t.sessions ++ session ∷ []
  pub devices : Connects p t.devices u.devices row
  pub rates : u.rates ≡ t.rates

claimed_room :
    (db : Db) (p : Principal) (proof : String) (o : Option String) (found : Option Device)
    → found_by db o ≡ found
    → found_claimable db p proof found ≡ true
    → HasRoom p db.devices ⊎ Owns p db.devices o
unfolding found_claimable found_by
claimed_room db p proof o none e h = absurd (cc)
claimed_room db p proof none (some d) e h = absurd (ground arith)
claimed_room db p proof (some id) (some d) e h =
    elim (Bool-cases (d.owner_subject == some p.subject)) [
      | inl own ↦ inr (id, d, refl, e, (option_beq_iff d.owner_subject (some p.subject)).0 own)
      | inr other ↦ inl (ground arith)
    ]

eligible_room :
    (db : Db) (row : Flow) (p : Principal) (proof : Option String)
    → eligible_with db row p proof ≡ true
    → HasRoom p db.devices ⊎ Owns p db.devices row.device_id
unfolding eligible_with
eligible_room db row p none h = inl (ground arith)
eligible_room db row p (some proof) h =
    claimed_room db p proof row.device_id (found_by db row.device_id) refl h

no_owner :
    (p : Principal) (ds : List Device) (o : Option String)
    → o ≡ none
    → HasRoom p ds ⊎ Owns p ds o
    → HasRoom p ds
no_owner p ds o e (inl room) = room
no_owner p ds o e (inr (id, d, has, found, own)) = absurd (cc)

later : (a b : ℕ) → ltb a b ≡ true → a < b
later a b h = ground arith

insert_device-adds :
    (d : Device) (r : Roll)
    → Ensures
        (λ r'.
          (shared r' ≡ (record (shared r) { devices = r.db.devices ++ d ∷ [] }))
          × (find device_id d.id r.db.devices ≡ none)
          × (first_where (has_hash d.token_hash) r.db.devices ≡ none))
        (insert_device d r)
unfolding insert_device is_some
insert_device-adds d r =
    Ensures-guard _ _ _
      λ name. Ensures-guard _ _ _ λ hash. Ensures-ok _ (refl, ground arith, ground arith)

insert_session-adds :
    (s : Session) (r : Roll)
    → Ensures
        (λ r'.
          (shared r' ≡ (record (shared r) { sessions = r.sessions ++ s ∷ [] }))
          × (find session_hash s.token_hash r.sessions ≡ none))
        (insert_session s r)
unfolding insert_session
insert_session-adds s r =
    Ensures-match _ _ _ (λ free. Ensures-ok _ (refl, free)) λ _ _. Ensures-err _

module _ (svc : Service) (rt : Runtime) where
  -- `connect` writes devices only.
  pub connect-Connects :
      (row : Flow) (p : Principal) (fresh : String) (r : Roll)
      → HasRoom p r.db.devices ⊎ Owns p r.db.devices row.device_id
      → Ensures
          (λ (a : String × Roll).
            (shared a.1 ≡ (record (shared r) { devices = a.1.db.devices }))
            × Connects p r.db.devices a.1.db.devices row)
          (connect svc rt row p fresh r)
  unfolding connect log_event
  connect-Connects row p fresh r room =
      Ensures-match _ _ _
        (λ none_yet. Ensures-bind _ _ λ r' e.
          let (same, name, hash) = (insert_device-adds _ r).holds r' e in
          Ensures-ok _ (
            same
                ∙ ap (λ ds. record (shared r) { devices = ds })
                    (sym (ap (λ (s : Shared). s.devices) same)),
            registers _ none_yet (no_owner p r.db.devices row.device_id none_yet room) refl refl
                name hash (ap (λ (s : Shared). s.devices) same),
          ))
        λ id has. Ensures-ok _ (refl, claims id has (rw has at room) refl)

  abbrev HasFlow : Roll → String → Flow → Type 0
  HasFlow r id row = find flow_id id r.flows ≡ some row

  pub approve-Approves :
      (row : Flow) (p : Principal) (now : ℕ) (fresh : String) (r : Roll)
      → Ensures
          (λ (a : String × Roll). (a.0 ≡ "approved") × Approves row p now (shared r) (shared a.1))
          (approve svc rt row p now fresh r)
  unfolding approve log_event
  approve-Approves row p now fresh r = Ensures-guard _ _ _ λ allowed. Ensures-guard _ _ _ λ lasts.
      Ensures-guard _ _ _ λ room. Ensures-bind _ _ λ (device, r2) e. Ensures-bind _ _ λ r3 e'.
        let r1 = record r { sessions = live_sessions now r.sessions } in
        let (same, devices) =
          (connect-Connects row p fresh r1
              (eligible_room r.db row p row.device_proof_hash allowed)).holds
            (device, r2) e in
        let s : Session = record {
          token_hash = rt.sha256 (flow_token svc "personal" row);
          subject = p.subject;
          expires_at = min (now + seconds session_seconds) p.expires_at;
          created_at = now;
        } in
        let change =
          approved svc rt p s.token_hash s.expires_at device (not (is_some row.device_id)) in
        let (same', free) = (insert_session-adds s r2).holds r3 e' in
        let old : r2.sessions ≡ live_sessions now r.sessions =
          ap (λ (s : Shared). s.sessions) same in
        Ensures-ok _ (
          refl,
          record {
            flows = record {
              change = change;
              same_id = λ f. refl;
              closed = λ f. refl;
              changed =
                  ap (λ (s : Shared). update flow_id row.id change s.flows) same'
                  ∙ ap (λ (s : Shared). update flow_id row.id change s.flows) same;
            };
            session = s;
            subject = refl;
            lasts = later now _ lasts;
            room = room;
            fresh = rw (← old) free;
            sessions = ap (λ (s : Shared). s.sessions) same' ∙ ap (λ ss. ss ++ s ∷ []) old;
            devices = rw (ap (λ (s : Shared). s.devices) same') devices;
            rates = ap (λ (s : Shared). s.rates) same' ∙ ap (λ (s : Shared). s.rates) same;
          },
        )
