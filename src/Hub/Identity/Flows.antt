-- ===== src/Hub/Identity/Flows.antt =====
-- The tables behind a connection, and `device`, `flow`, `flow_view`, `eligible` and `token` of
-- stpd/hub/identity.py.
use Prim.Native.String.{◌++◌ as join_text}
use text.Mathlib.Text.{starts_with}
use sts2_the_perfect_defect.Prelude.{
  ℕ, String, Bool, false, ◌&&◌, ◌||◌, not, Option, none, some, List, [], ◌∷◌, ltb, total, ◌==◌,
  nat_eq, string_eq, option_eq, if◌then◌else◌,
}
use sts2_the_perfect_defect.Prelude.Result.{Result, ok, ◌>>=◌, ◌>>◌, guard, expect}
use sts2_the_perfect_defect.Prelude.Table.{find, update}
use sts2_the_perfect_defect.Contracts.Runtime.{Runtime}
use sts2_the_perfect_defect.Hub.Schema.{Db, Device, device_id}
use sts2_the_perfect_defect.Hub.Members.{
  Roll, RollTx, Principal, Flow, Session, authorize, one_when, set_device, is_some,
  authenticated_device, device_authorized,
}
use sts2_the_perfect_defect.Hub.Identity.Base.{Service, identity, is_in, personal_prefix}

-- `device`, without its presence texts
pub record DeviceView : Type 0 where
  pub device_id : String
  pub name : String
  pub last_seen : Option ℕ

-- `create`, without its texts
pub record Ticket : Type 0 where
  pub flow_id : String
  pub user_code : String
  pub expires_at : ℕ

pub record FlowView : Type 0 where
  pub row : Flow
  pub status : String
  pub approval_allowed : Bool

-- `a or b` on a text that may be missing, or empty
unfoldable pub or_text : Option String → String → String
or_text none b = b
or_text (some a) b = if a == "" then b else a

abbrev pub either {ℓ} : {A : Type ℓ} → Option A → Option A → Option A
either none b = b
either (some a) b = some a

abbrev pub flow_id : Flow → String
flow_id f = f.id

abbrev pub has_expired : ℕ → Flow → Bool
has_expired now f = not (ltb now f.expires_at)

-- `DELETE FROM identity_flows WHERE expires_at<=?`
unfoldable pub live_flows : ℕ → List Flow → List Flow
live_flows now [] = []
live_flows now (f ∷ fs) =
    let rest = live_flows now fs in if ltb now f.expires_at then f ∷ rest else rest

-- `DELETE FROM identity_sessions WHERE expires_at<=?`
unfoldable pub live_sessions : ℕ → List Session → List Session
live_sessions now [] = []
live_sessions now (s ∷ ss) =
    let rest = live_sessions now ss in if ltb now s.expires_at then s ∷ rest else rest

abbrev pub sessions_of : String → List Session → ℕ
sessions_of subject ss = total (λ s. one_when (s.subject == subject)) ss

-- `flow`
unfoldable pub flow_row : Roll → String → Result Flow
flow_row r id = expect (find flow_id id r.flows) (identity "identity_flow_not_found")

abbrev pub set_flow : String → (Flow → Flow) → Roll → Roll
set_flow id f r = record r { flows = update flow_id id f r.flows }

abbrev pub is_owned : String → Device → Bool
is_owned subject d = d.owner_subject == some subject && d.active

-- `COUNT(*) FROM devices WHERE owner_subject=? AND active=1`
abbrev pub active_owned : String → List Device → ℕ
active_owned subject ds = total (λ d. one_when (is_owned subject d)) ds

abbrev pub may_claim : Db → Principal → Device → Bool
may_claim db p d =
    is_in p.claim_devices d.id && ltb (active_owned p.subject db.devices) p.device_quota

-- The claim of a device by the proof of its own credential
abbrev pub is_claimable : Db → Principal → String → Device → Bool
is_claimable db p proof d =
    device_authorized db d.id
    && (d.token_hash == proof
        && ((d.owner_subject == none || d.owner_subject == some p.subject)
            && (d.owner_subject == some p.subject || may_claim db p d)))

unfoldable pub found_claimable : Db → Principal → String → Option Device → Bool
found_claimable db p proof none = false
found_claimable db p proof (some d) = is_claimable db p proof d

unfoldable pub found_by : Db → Option String → Option Device
found_by db none = none
found_by db (some id) = find device_id id db.devices

unfoldable pub eligible_with : Db → Flow → Principal → Option String → Bool
eligible_with db row p none =
    p.enroll_devices && ltb (active_owned p.subject db.devices) p.device_quota
eligible_with db row p (some proof) = found_claimable db p proof (found_by db row.device_id)

-- `eligible`
abbrev pub eligible : Db → Flow → Principal → Bool
eligible db row p = eligible_with db row p row.device_proof_hash

module _ (rt : Runtime) where
  -- `device`; a heartbeat gives its time.
  unfoldable pub device : String → Option ℕ → RollTx DeviceView
  device token beat r = do
    guard (not (starts_with token personal_prefix)) (identity "unauthorized")
    row ← authenticated_device rt r.db token
    let seen = either beat row.last_seen
    let db = set_device row.id (λ d. record d { last_seen = seen }) r.db
    ok (
      record { device_id = row.id; name = or_text row.name row.id; last_seen = seen },
      if is_some beat then record r { db = db } else r,
    )

module _ (svc : Service) where
  abbrev pub key_id : String
  key_id = svc.mac ("key-id" ∷ [])

  -- `token`
  abbrev pub flow_token : String → Flow → String
  flow_token purpose row =
      join_text "stpd_"
        (join_text purpose (join_text "_" (svc.mac (purpose ∷ row.id ∷ row.client_hash ∷ []))))

  module _ (rt : Runtime) where
    unfoldable pub flow_view : String → Principal → ℕ → RollTx FlowView
    flow_view id p now r = do
      (current, r') ← authorize rt p false r
      row ← flow_row r' id
      let state = if has_expired now row then "expired" else row.status
      ok (
        record {
          row = row;
          status = state;
          approval_allowed =
              state == "pending" && (row.key_id == key_id && eligible r'.db row current);
        },
        r',
      )
