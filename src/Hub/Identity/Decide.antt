-- ===== src/Hub/Identity/Decide.antt =====
-- `create` and `decide` of stpd/hub/identity.py. What `secrets` draws is an argument.
use Prim.Native.String.{◌++◌ as join_text}
use sts2_the_perfect_defect.Prelude.{
  ℕ, ◌+◌, min, String, Bool, true, false, ◌&&◌, not, Option, none, some, [], ◌∷◌, ◌++◌, ltb, length,
  ◌==◌, nat_eq, string_eq, option_eq,
}
use sts2_the_perfect_defect.Prelude.Result.{
  Result, ok, err, integrity_error, ◌>>=◌, ◌>>◌, guard, match_option, branch,
}
use sts2_the_perfect_defect.Prelude.Table.{find, first_where}
use sts2_the_perfect_defect.Boundary.Json.{Json}
use sts2_the_perfect_defect.Contracts.Runtime.{Runtime}
use sts2_the_perfect_defect.Hub.Schema.{Device, device_id, seconds}
use sts2_the_perfect_defect.Hub.Members.{
  Roll, RollTx, Principal, Flow, Session, authorize, note, lookup, set_device, is_some,
}
use sts2_the_perfect_defect.Hub.Identity.Base.{
  Service, identity, required_access, fields, identity_text, client_hash, compare_digest, given,
  flow_seconds, session_seconds,
}
use sts2_the_perfect_defect.Hub.Identity.Flows.{
  Ticket, device, live_flows, live_sessions, sessions_of, flow_row, flow_id, set_flow, eligible,
  either, key_id, flow_token,
}

abbrev pub session_hash : Session → String
session_hash s = s.token_hash

-- The device that a request already has, with the hash of its credential
unfoldable pub known_device :
    Runtime → Option Json → Option Json → Roll → Result (Option String × Option String)
known_device rt none none r = ok (none, none)
known_device rt (some id) (some proof) r = do
  identity' ← identity_text (some id) 128
  token ← identity_text (some proof) 4096
  (view, r') ← device rt token none r
  guard (view.device_id == identity') (identity "unauthorized")
  ok (some identity', some (rt.sha256 token))
known_device rt _ _ r = err (identity "existing_device_proof_required")

abbrev pub new_flow :
    String → String → String → Option String → Option String → String → ℕ → String → Flow
new_flow id secret name device proof code now key = record {
  id = id;
  client_hash = secret;
  device_name = name;
  device_id = device;
  device_proof_hash = proof;
  user_code = code;
  created_at = now;
  expires_at = now + seconds flow_seconds;
  status = "pending";
  key_id = key;
  subject = none;
  session_hash = none;
  session_expires_at = none;
  new_device = false;
}

-- `INSERT INTO identity_flows`
unfoldable pub insert_flow : Flow → Roll → Result Roll
insert_flow f r =
    match_option (find flow_id f.id r.flows) (ok (record r { flows = r.flows ++ f ∷ [] }))
      (λ old. err integrity_error)

-- `INSERT INTO identity_sessions`
unfoldable pub insert_session : Session → Roll → Result Roll
insert_session s r =
    match_option (find session_hash s.token_hash r.sessions)
      (ok (record r { sessions = r.sessions ++ s ∷ [] })) (λ old. err integrity_error)

abbrev pub has_hash : String → Device → Bool
has_hash hash d = d.token_hash == hash

-- `INSERT INTO devices`, whose name and credential are both unique
unfoldable pub insert_device : Device → Roll → Result Roll
insert_device d r = do
  let db = r.db
  guard (not (is_some (find device_id d.id db.devices))) integrity_error
  guard (not (is_some (first_where (has_hash d.token_hash) db.devices))) integrity_error
  ok (record r { db = record db { devices = db.devices ++ d ∷ [] } })

-- `owner_subject=?, name=COALESCE(name,?)`
abbrev pub claimed_by : Principal → Flow → Device → Device
claimed_by p row d = record d {
  owner_subject = some p.subject;
  name = either d.name (some row.device_name);
}

module _ (svc : Service) (rt : Runtime) where
  -- The proof of a device that is already there is a transaction before this one.
  unfoldable pub create : Json → ℕ → String → String → RollTx Ticket
  create value now fresh code r = do
    required_access svc
    body ← fields ("client_secret" ∷ "device_name" ∷ []) ("device_id" ∷ "device_token" ∷ []) value
    secret ← client_hash rt (lookup "client_secret" body)
    name ← identity_text (lookup "device_name" body) 100
    known ← known_device rt (given (lookup "device_id" body)) (given (lookup "device_token" body)) r
    let r1 = record r { flows = live_flows now r.flows; sessions = live_sessions now r.sessions }
    guard (ltb (length r1.flows) 1000) (identity "identity_flow_capacity")
    r2 ← insert_flow (new_flow fresh secret name known.0 known.1 code now (key_id svc)) r1
    ok (record { flow_id = fresh; user_code = code; expires_at = now + seconds flow_seconds }, r2)

  -- The device of an approved connection: a new one, or the one that it has proved to be.
  unfoldable pub connect : Flow → Principal → String → Roll → Result (String × Roll)
  connect row p fresh r =
      match_option row.device_id
        (do
          let id = join_text "device-" fresh
          r' ←
              insert_device
                (record {
                  id = id;
                  token_hash = rt.sha256 (flow_token svc "device" row);
                  active = true;
                  owner_subject = some p.subject;
                  name = some row.device_name;
                  last_seen = none;
                })
                r
          ok (id, note p.subject "device_registered" id r'))
        (λ id. ok (id, record r { db = set_device id (claimed_by p row) r.db }))

  abbrev pub approved : Principal → String → ℕ → String → Bool → Flow → Flow
  approved p hash expiry device fresh_device f = record f {
    status = "approved";
    subject = some p.subject;
    session_hash = some hash;
    session_expires_at = some expiry;
    device_id = some device;
    new_device = fresh_device;
  }

  unfoldable pub approve : Flow → Principal → ℕ → String → RollTx String
  approve row p now fresh r = do
    guard (eligible r.db row p) (identity "identity_device_not_authorized")
    let expiry = min (now + seconds session_seconds) p.expires_at
    guard (ltb now expiry) (identity "unauthorized")
    let r1 = record r { sessions = live_sessions now r.sessions }
    guard (ltb (sessions_of p.subject r1.sessions) 32) (identity "identity_session_capacity")
    (device, r2) ← connect row p fresh r1
    let hash = rt.sha256 (flow_token svc "personal" row)
    r3 ←
        insert_session
          (record { token_hash = hash; subject = p.subject; expires_at = expiry; created_at = now })
          r2
    let is_new = not (is_some row.device_id)
    ok (
      "approved",
      note p.subject "identity_connection_approved" row.id
          (set_flow row.id (approved p hash expiry device is_new) r3),
    )

  unfoldable pub decide : String → Json → Principal → Bool → ℕ → String → RollTx String
  decide id value p deny now fresh r = do
    body ← fields ("csrf_token" ∷ "user_code" ∷ []) [] value
    code ← identity_text (lookup "user_code" body) 8
    (current, r1) ← authorize rt p false r
    row ← flow_row r1 id
    guard (row.status == "pending" && (ltb now row.expires_at && row.key_id == key_id svc))
        (identity "identity_flow_not_pending")
    same ← compare_digest row.user_code code
    guard same (identity "identity_code_rejected")
    branch deny
        (ok (
          "denied",
          note current.subject "identity_connection_denied" id
              (set_flow id (λ f. record f { status = "denied" }) r1),
        ))
        (approve row current now fresh r1)
