-- ===== src/Hub/Identity/Sessions.antt =====
-- `principal`, `personal`, `poll` and `logout` of stpd/hub/identity.py, and `verified_identity` of
-- stpd/hub/console_auth.py.
use sts2_the_perfect_defect.Prelude.{
  ℕ, String, Bool, false, ◌&&◌, ◌||◌, not, Option, none, some, List, [], ◌∷◌, ltb, leb, length,
  ◌==◌, nat_eq, string_eq, if◌then◌else◌,
}
use sts2_the_perfect_defect.Prelude.Result.{
  Result, ok, err, boundary, ◌>>=◌, ◌>>◌, guard, expect, match_option, branch,
}
use sts2_the_perfect_defect.Prelude.Table.{find, first_where}
use sts2_the_perfect_defect.Boundary.Json.{Json}
use sts2_the_perfect_defect.Boundary.Checks.{codes}
use sts2_the_perfect_defect.Contracts.Runtime.{Runtime}
use sts2_the_perfect_defect.Hub.Schema.{Device, device_id, Role.member, invited}
use sts2_the_perfect_defect.Hub.Members.{
  Roll, RollTx, Principal, Flow, Session, User, authorize, note, lookup, is_address,
}
use sts2_the_perfect_defect.Hub.Identity.Base.{
  Service, identity, required_access, fields, client_hash, is_personal,
}
use sts2_the_perfect_defect.Hub.Identity.Flows.{flow_id, set_flow, has_expired, key_id, flow_token}

-- An identity that nobody has granted anything: an authorization writes its role and its status.
abbrev pub authenticated : String → String → String → String → Principal
authenticated subject issuer access email = record {
  role = member;
  status = invited;
  subject = subject;
  email = email;
  issuer = issuer;
  access_subject = access;
  expires_at = 0;
  session_binding = "";
  member_id = "";
  enroll_devices = false;
  device_quota = 0;
  devices = [];
  owned_devices = [];
  claim_devices = [];
}

-- `DELETE FROM identity_sessions WHERE token_hash=?`
unfoldable pub without_hash : String → List Session → List Session
without_hash hash [] = []
without_hash hash (s ∷ ss) =
    let rest = without_hash hash ss in if s.token_hash == hash then rest else s ∷ rest

abbrev pub is_current : String → ℕ → Session → Bool
is_current hash now s = s.token_hash == hash && ltb now s.expires_at

abbrev pub is_user : String → User → Bool
is_user subject u = u.subject == subject

-- A device's secret is handed out while its row stands as it was approved.
abbrev pub stands_as : String → Device → Bool
stands_as hash d = d.active && d.token_hash == hash

unfoldable pub row_stands : String → Option Device → Bool
row_stands hash none = false
row_stands hash (some d) = stands_as hash d

unfoldable pub row_of : Option String → List Device → Option Device
row_of none ds = none
row_of (some id) ds = find device_id id ds

-- What the first transaction of a poll finds
pub data Look : Type 0 where
  status : String → Look
  granted : Flow → Option String → Look

pub record Grant : Type 0 where
  pub session_token : String
  pub expires_at : Option ℕ
  pub principal : Principal
  pub device_id : Option String
  pub device_name : String
  pub device_token : Option String

pub data Answer : Type 0 where
  said : String → Answer
  approved_as : Grant → Answer

module _ (svc : Service) (rt : Runtime) where
  unfoldable pub verified_identity : String → String → String → Result Principal
  unfolding is_address
  verified_identity issuer subject email = do
    guard (is_address false (codes email) && leb (length (codes email)) 254)
        (boundary "console" "unauthorized")
    ok (authenticated (svc.stable_id issuer subject) issuer subject (rt.casefold email))

  -- A browser session takes an invitation up.
  abbrev pub principal : Principal → RollTx Principal
  principal p r = authorize rt p (not (p.session_binding == "")) r

  unfoldable pub personal : String → ℕ → RollTx Principal
  personal token now r = do
    required_access svc
    guard (is_personal token) (identity "unauthorized")
    s ← expect (first_where (is_current (rt.sha256 token) now) r.sessions) (identity "unauthorized")
    u ← expect (first_where (is_user s.subject) r.users) (identity "unauthorized")
    p ← verified_identity u.issuer u.access_subject u.email
    authorize rt (record p { expires_at = s.expires_at }) false r

  -- The secret of a device that the approval made
  unfoldable pub device_secret : Flow → Roll → Result (Option String)
  device_secret row r =
      let secret = flow_token svc "device" row in
      branch row.new_device
        (do
          guard (row_stands (rt.sha256 secret) (row_of row.device_id r.db.devices))
              (identity "identity_device_not_authorized")
          ok (some secret))
        (ok none)

  -- `poll` of a flow that is there, up to the end of its transaction
  unfoldable pub look_at : Flow → String → Bool → ℕ → RollTx Look
  look_at row proof acknowledge now r = do
    guard (row.client_hash == proof) (identity "unauthorized")
    branch (has_expired now row) (ok (status "expired", r)) (
        branch (row.status == "acknowledged" && acknowledge) (ok (status "acknowledged", r)) (
          branch (row.status == "denied" || row.status == "acknowledged") (ok (status "denied", r))
            (do
              guard (row.key_id == key_id svc) (identity "identity_flow_key_changed")
              branch (not (row.status == "approved"))
                  (branch acknowledge (err (identity "identity_flow_not_approved"))
                    (ok (status "pending", r)))
                  (branch acknowledge
                    (ok (
                      status "acknowledged",
                      set_flow row.id (λ f. record f { status = "acknowledged" }) r,
                    ))
                    (do secret ← device_secret row r; ok (granted row secret, r))))))

  unfoldable pub poll_flow : String → Json → Bool → ℕ → RollTx Look
  poll_flow id value acknowledge now r = do
    body ← fields ("client_secret" ∷ []) [] value
    proof ← client_hash rt (lookup "client_secret" body)
    match_option (find flow_id id r.flows) (ok (status "expired", r))
        (λ row. look_at row proof acknowledge now r)

  -- The credentials are handed out after a second look at the membership, another transaction.
  unfoldable pub answer_of : ℕ → Look → RollTx Answer
  answer_of now (status s) r = ok (said s, r)
  answer_of now (granted row secret) r = do
    (p, r') ← personal (flow_token svc "personal" row) now r
    ok (
      approved_as (record {
        session_token = flow_token svc "personal" row;
        expires_at = row.session_expires_at;
        principal = p;
        device_id = row.device_id;
        device_name = row.device_name;
        device_token = secret;
      }),
      r',
    )

  -- `between` is what other clients commit between the two transactions.
  unfoldable pub poll : String → Json → Bool → ℕ → ℕ → (Roll → Roll) → RollTx Answer
  poll id value acknowledge now later between r = do
    (look, r') ← poll_flow id value acknowledge now r
    answer_of later look (between r')

  abbrev pub logged_out : Option Session → Roll → Roll
  logged_out none r = r
  logged_out (some s) r = note s.subject "personal_session_logged_out" "self" r

  abbrev holds_hash : String → Session → Bool
  holds_hash hash s = s.token_hash == hash

  unfoldable pub logout : String → RollTx (Unit {0})
  unfolding without_hash
  logout token r = do
    guard (is_personal token) (identity "unauthorized")
    let hash = rt.sha256 token
    ok (
      tt,
      logged_out (first_where (holds_hash hash) r.sessions)
          (record r { sessions = without_hash hash r.sessions }),
    )
