-- ===== src/Hub/Identity/Effects.antt =====
-- What each operation of the identity service does to the tables, if it is committed.
use sts2_the_perfect_defect.Prelude.{
  ℕ, ◌≡◌, refl, String, Bool, true, false, Option, none, some, [], ◌∷◌, ◌++◌, ltb, length,
  string_eq, nat_eq, option_eq, Bool-cases, inl, inr,
}
use sts2_the_perfect_defect.Prelude.Result.{
  Result, ok, err, Ensures, Ensures-ok, Ensures-err, Ensures-guard, Ensures-branch, Ensures-bind,
  Ensures-match, Ensures-expect,
}
use sts2_the_perfect_defect.Prelude.Table.{find, update, key-find}
use sts2_the_perfect_defect.Boundary.Json.{Json}
use sts2_the_perfect_defect.Contracts.Runtime.{Runtime}
use sts2_the_perfect_defect.Hub.Schema.{Device, device_id, log_event}
use sts2_the_perfect_defect.Hub.Members.{Roll, Principal, Flow, Session, is_some, settled}
use sts2_the_perfect_defect.Hub.Members.Touches.{
  Shared, shared, Touches, authorize-Quiet, manage-Touches,
}
use sts2_the_perfect_defect.Hub.Identity.{
  Service, live_flows, live_sessions, flow_row, flow_id, either, key_id, create, decide,
  insert_flow, new_flow, device, poll_flow, look_at, Look, DeviceView, Ticket, rate, IdentityCall,
  rating, beating, creating, deciding, polling, using, leaving, managing, serve, personal, logout,
  logged_out, without_hash,
}
use sts2_the_perfect_defect.Hub.Identity.Approves.{Closes, Approves, approve-Approves}

-- What a decision does: a denial touches one connection, an approval what `Approves` says.
pub data Decides (id : String) (now : ℕ) (t u : Shared) : Type 0 where
  denies : Closes id t.flows u.flows → u ≡ (record t { flows = u.flows }) → Decides id now t u
  grants :
      (row : Flow) (q : Principal)
      → find flow_id id t.flows ≡ some row
      → row.id ≡ id
      → Approves row q now t u
      → Decides id now t u

module _ (svc : Service) (rt : Runtime) where
  pub decide-Decides :
      (id : String) (value : Json) (p : Principal) (deny : Bool) (now : ℕ) (fresh : String)
      (r : Roll)
      → Ensures
          (λ (a : String × Roll). Decides id now (shared r) (shared a.1))
          (decide svc rt id value p deny now fresh r)
  unfolding decide flow_row log_event
  decide-Decides id value p deny now fresh r = Ensures-bind _ _ λ body _. Ensures-bind _ _ λ code _.
      Ensures-bind _ _ λ (q, r1) e. Ensures-expect _ _ _ λ row found. Ensures-guard _ _ _ λ _.
        Ensures-bind _ _ λ same _. Ensures-guard _ _ _ λ _.
          let quiet = (authorize-Quiet rt p false r).holds (q, r1) e in
          Ensures-branch _ _ _
            (λ _. Ensures-ok _ (
              rw (← quiet) (
                denies
                  (record {
                    change = λ f. record f { status = "denied" };
                    same_id = λ f. refl;
                    closed = λ f. refl;
                    changed = refl;
                  })
                  refl)))
            (λ _. record {
              holds = λ a h.
                  let (_, gives) = (approve-Approves svc rt row q now fresh r1).holds a h in
                  rw (← quiet) (grants row q found (key-find flow_id id r1.flows row found) gives);
            })

-- The name that a call draws for a new connection
abbrev pub drawn : IdentityCall → Option String
drawn (creating value now fresh code) = some fresh
drawn _ = none

abbrev seen_at : Option ℕ → Device → Device
seen_at seen d = record d { last_seen = seen }

-- What one call does, where `o` is the name that it draws
pub data Serves (o : Option String) (t u : Shared) : Type 0 where
  alone : u ≡ t → Serves o t u
  rates : u ≡ (record t { rates = u.rates }) → Serves o t u
  beats :
      (id : String) (seen : Option ℕ)
      → u ≡ (record t { devices = update device_id id (seen_at seen) t.devices })
      → Serves o t u
  creates :
      (f : Flow) (now : ℕ)
      → o ≡ some f.id
      → find flow_id f.id (live_flows now t.flows) ≡ none
      → ltb (length (live_flows now t.flows)) 1000 ≡ true
      → u ≡ (record t {
        flows = live_flows now t.flows ++ f ∷ [];
        sessions = live_sessions now t.sessions;
      })
      → Serves o t u
  decides : (id : String) (now : ℕ) → Decides id now t u → Serves o t u
  acknowledges :
      (id : String) → Closes id t.flows u.flows → u ≡ (record t { flows = u.flows }) → Serves o t u
  leaves :
      (hash : String) → u ≡ (record t { sessions = without_hash hash t.sessions }) → Serves o t u
  touches : Touches t u → Serves o t u

settled-Serves :
    {A : Type 0} (o : Option String) (r : Roll) (m : Result (A × Roll))
    → Ensures (λ (p : A × Roll). Serves o (shared r) (shared p.1)) m
    → Serves o (shared r) (shared (settled m r))
settled-Serves o r (ok (a, r')) e = e.holds (a, r') refl
settled-Serves o r (err x) e = alone refl

module _ (svc : Service) (rt : Runtime) where
  rate-Serves :
      (source op : String) (limit now : ℕ) (r : Roll)
      → Ensures
          (λ (a : Unit {0} × Roll). Serves none (shared r) (shared a.1))
          (rate svc source op limit now r)
  unfolding rate
  rate-Serves source op limit now r =
      Ensures-match _ _ _ (λ _. Ensures-guard _ _ _ λ _. Ensures-ok _ (rates refl))
        λ row _. Ensures-guard _ _ _ λ _. Ensures-ok _ (rates refl)

  beat-Serves :
      (token : String) (beat : Option ℕ) (r : Roll)
      → Ensures
          (λ (a : DeviceView × Roll). Serves none (shared r) (shared a.1))
          (device rt token beat r)
  unfolding device
  beat-Serves token beat r = Ensures-guard _ _ _ λ _. Ensures-bind _ _ λ row _.
      Ensures-ok _ (elim (Bool-cases (is_some beat)) [
        | inl e ↦ rw e (beats row.id (either beat row.last_seen) refl)
        | inr e ↦ rw e (alone refl)
      ])

  insert_flow-adds :
      (f : Flow) (r : Roll)
      → Ensures
          (λ r'.
            (shared r' ≡ (record (shared r) { flows = r.flows ++ f ∷ [] }))
            × (find flow_id f.id r.flows ≡ none))
          (insert_flow f r)
  unfolding insert_flow
  insert_flow-adds f r =
      Ensures-match _ _ _ (λ free. Ensures-ok _ (refl, free)) λ _ _. Ensures-err _

  create-Serves :
      (value : Json) (now : ℕ) (fresh code : String) (r : Roll)
      → Ensures
          (λ (a : Ticket × Roll). Serves (some fresh) (shared r) (shared a.1))
          (create svc rt value now fresh code r)
  unfolding create
  create-Serves value now fresh code r = Ensures-guard _ _ _ λ _. Ensures-bind _ _ λ body _.
      Ensures-bind _ _ λ secret _. Ensures-bind _ _ λ name _. Ensures-bind _ _ λ known _.
        Ensures-guard _ _ _ λ room. Ensures-bind _ _ λ r2 e.
          let r1 = record r {
            flows = live_flows now r.flows;
            sessions = live_sessions now r.sessions;
          } in
          let f = new_flow fresh secret name known.0 known.1 code now (key_id svc) in
          let (same, free) = (insert_flow-adds f r1).holds r2 e in
          Ensures-ok _ (creates f now refl free room same)

  look-Serves :
      (row : Flow) (proof : String) (ack : Bool) (now : ℕ) (r : Roll)
      → Ensures
          (λ (a : Look × Roll). Serves none (shared r) (shared a.1))
          (look_at svc rt row proof ack now r)
  unfolding look_at
  look-Serves row proof ack now r = Ensures-guard _ _ _ λ _.
      Ensures-branch _ _ _ (λ _. Ensures-ok _ (alone refl))
        λ _.
          Ensures-branch _ _ _ (λ _. Ensures-ok _ (alone refl))
            λ _.
              Ensures-branch _ _ _ (λ _. Ensures-ok _ (alone refl))
                λ _. Ensures-guard _ _ _ λ _.
                  Ensures-branch _ _ _
                    (λ _.
                      Ensures-branch _ _ _ (λ _. Ensures-err _) (λ _. Ensures-ok _ (alone refl)))
                    (λ _.
                      Ensures-branch _ _ _
                        (λ _. Ensures-ok _ (
                          acknowledges row.id
                            (record {
                              change = λ f. record f { status = "acknowledged" };
                              same_id = λ f. refl;
                              closed = λ f. refl;
                              changed = refl;
                            })
                            refl))
                        (λ _. Ensures-bind _ _ λ secret _. Ensures-ok _ (alone refl)))

  poll-Serves :
      (id : String) (value : Json) (ack : Bool) (now : ℕ) (r : Roll)
      → Ensures
          (λ (a : Look × Roll). Serves none (shared r) (shared a.1))
          (poll_flow svc rt id value ack now r)
  unfolding poll_flow
  poll-Serves id value ack now r = Ensures-bind _ _ λ body _. Ensures-bind _ _ λ proof _.
      Ensures-match _ _ _ (λ _. Ensures-ok _ (alone refl)) λ row _. look-Serves row proof ack now r

  personal-Serves :
      (token : String) (now : ℕ) (r : Roll)
      → Ensures
          (λ (a : Principal × Roll). Serves none (shared r) (shared a.1))
          (personal svc rt token now r)
  unfolding personal
  personal-Serves token now r = Ensures-guard _ _ _ λ _. Ensures-guard _ _ _ λ _.
      Ensures-expect _ _ _ λ s _. Ensures-expect _ _ _ λ u _. Ensures-bind _ _ λ p _. record {
        holds = λ a e.
            alone ((authorize-Quiet rt (record p { expires_at = s.expires_at }) false r).holds a e);
      }

  logged_out-shared : (o : Option Session) (r : Roll) → shared (logged_out svc rt o r) ≡ shared r
  unfolding log_event
  logged_out-shared none r = refl
  logged_out-shared (some s) r = refl

  logout-Serves :
      (token : String) (r : Roll)
      → Ensures
          (λ (a : Unit {0} × Roll). Serves none (shared r) (shared a.1))
          (logout svc rt token r)
  unfolding logout
  logout-Serves token r =
      Ensures-guard _ _ _ λ _. Ensures-ok _ (leaves (rt.sha256 token) (logged_out-shared _ _))

  pub serve-Serves :
      (c : IdentityCall) (r : Roll) → Serves (drawn c) (shared r) (shared (serve svc rt c r))
  unfolding serve
  serve-Serves (rating s o l n) r = settled-Serves _ r _ (rate-Serves s o l n r)
  serve-Serves (beating t b) r = settled-Serves _ r _ (beat-Serves t b r)
  serve-Serves (creating v n f c) r = settled-Serves _ r _ (create-Serves v n f c r)
  serve-Serves (deciding i v p d n f) r =
      settled-Serves _ r _
        (record { holds = λ a e. decides i n ((decide-Decides svc rt i v p d n f r).holds a e) })
  serve-Serves (polling i v a n) r = settled-Serves _ r _ (poll-Serves i v a n r)
  serve-Serves (using t n) r = settled-Serves _ r _ (personal-Serves t n r)
  serve-Serves (leaving t) r = settled-Serves _ r _ (logout-Serves t r)
  serve-Serves (managing c) r = touches (manage-Touches rt c r)
