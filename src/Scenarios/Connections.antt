-- ===== src/Scenarios/Connections.antt =====
-- A member connects a new device: the request, the approval, and the poll that hands it out.
use sts2_the_perfect_defect.Prelude.{
  ℕ, ◌≤◌, ◌≡◌, ◌≢◌, refl, true, false, none, some, List, [], ◌∷◌, arith, String, string_eq, ◌==◌,
  option_eq, All,
}
use sts2_the_perfect_defect.Prelude.Result.{ok, ◌>>=◌}
use sts2_the_perfect_defect.Prelude.Table.{find, update, first_where}
use sts2_the_perfect_defect.Prelude.Keyed.{IsKeyed}
use sts2_the_perfect_defect.Boundary.Json.{Json, str, obj, field, end}
use sts2_the_perfect_defect.Boundary.Checks.{all}
use sts2_the_perfect_defect.Hub.Schema.{log_event}
use sts2_the_perfect_defect.Hub.Members.{
  Roll, Principal, Flow, authorize, granted, settled, updating, clear_sessions, without,
  for_subject, take_up, lookup, only, is_some, is_address,
}
use sts2_the_perfect_defect.Hub.Members.Touches.{shared}
use sts2_the_perfect_defect.Hub.Identity.{
  Service, flow_id, create, decide, poll, poll_flow, IdentityCall, serve, serve_all, rating,
  beating, creating, deciding, polling, using, leaving, managing, Answer, approved_as, fields,
  has_all, is_in, identity_text, client_hash, known_device, insert_flow, live_flows, live_sessions,
  flow_row, compare_digest, connect, approve, eligible_with, insert_device, insert_session, or_text,
  look_at, device_secret, row_of, row_stands, answer_of, personal, is_personal, drop,
  verified_identity, authenticated,
}
use sts2_the_perfect_defect.Hub.Identity.Approval.{decide_once}
use sts2_the_perfect_defect.Hub.Identity.Sound.{serve_all-IsSound, IsSound}
use sts2_the_perfect_defect.Hub.Identity.HandOut.{poll-IsHandedOut, IsHandedOut}
use sts2_the_perfect_defect.Hub.Identity.Quota.{decide-KeepsQuota, KeepsQuota}
use sts2_the_perfect_defect.Hub.Identity.Limits.{rate-limit, RateRequest, admitted}
use sts2_the_perfect_defect.Data.Seeds.{strip, strip_left, strip_right}
use sts2_the_perfect_defect.Scenarios.Data.{rt, sha_a}
use sts2_the_perfect_defect.Scenarios.Members.{roll, colleague, signed_in}
use sts2_the_perfect_defect.Boundary.Texts.{same_codes, sorted_set}

abbrev svc : Service
svc = record { has_access = true; mac = λ parts. sha_a; stable_id = λ issuer subject. "subject2" }

abbrev secret : String
secret = "client-secret-client-secret-0001"

abbrev request : Json
request = obj (field "client_secret" (str secret) (field "device_name" (str "Desk") end))

abbrev decision : Json
decision = obj (field "csrf_token" (str "t") (field "user_code" (str "ABCDEFGH") end))

abbrev asking : Json
asking = obj (field "client_secret" (str secret) end)

abbrev member : Principal
member = record signed_in { subject = "subject2"; access_subject = "access2" }

abbrev start : Roll
start = record roll {
  users =
      record { subject = "subject2"; issuer = "issuer"; access_subject = "access2"; email = "c@d" }
      ∷ [];
  sessions = [];
}

abbrev pending : Roll
pending = settled (create svc rt request 1 "flow1" "ABCDEFGH" start) start

abbrev connected : Roll
connected = settled (decide svc rt "flow1" decision member false 2 "n1" pending) pending

decided_answer :
    decide svc rt "flow1" decision member false 2 "n1" pending ≡ ok ("approved", connected)
unfolding create fields decide ◌>>=◌ lookup only identity_text strip authorize client_hash
    known_device live_flows insert_flow find first_where flow_row compare_digest approve
    eligible_with all strip_left strip_right has_all is_in same_codes connect insert_device
    insert_session sts2_the_perfect_defect.Hub.Identity.device
    sts2_the_perfect_defect.Hub.Identity.found_by
    sts2_the_perfect_defect.Hub.Identity.found_claimable live_sessions or_text
    sts2_the_perfect_defect.Hub.Members.claims sts2_the_perfect_defect.Hub.Members.find_member
    sts2_the_perfect_defect.Hub.Members.owned sts2_the_perfect_defect.Hub.Members.settle_pending
    sorted_set take_up sts2_the_perfect_defect.Hub.Members.upsert_user
    sts2_the_perfect_defect.Hub.Members.authenticated_device
    sts2_the_perfect_defect.Hub.Members.device_authorized is_some
    sts2_the_perfect_defect.Hub.Members.owner_is_active is_address
    sts2_the_perfect_defect.Hub.Members.member_email log_event
    sts2_the_perfect_defect.Prelude.Result.branch sts2_the_perfect_defect.Prelude.Result.expect
    sts2_the_perfect_defect.Prelude.Result.guard sts2_the_perfect_defect.Prelude.Result.match_option
    update
decided_answer = refl

abbrev afterwards : List IdentityCall
afterwards =
    polling "flow1" asking false 3
    ∷ creating request 3 "flow2" "HGFEDCBA"
    ∷ leaving "stpd_personal_x"
    ∷ []

start-IsSound : IsSound (shared start)
unfolding find
start-IsSound = record {
  flows = record { unique = tt; room = omega arith };
  sessions = record { unique = tt; room = λ s. omega arith };
  devices = ((refl, tt), (refl, tt));
}

no_other : IsKeyed flow_id pending.flows
unfolding serve_all serve
no_other =
    let sound =
      serve_all-IsSound svc rt (creating request 1 "flow1" "ABCDEFGH" ∷ []) start start-IsSound in
    sound.flows.unique

decide_once_example : ¬ (
    decide svc rt "flow1" decision member true 4 "n2" (serve_all svc rt afterwards connected)
    ≡ ok ("denied", connected))
decide_once_example =
    decide_once svc rt "flow1" decision member false 2 "n1" pending connected "approved" no_other
      decided_answer afterwards (refl, (refl, (refl, tt))) decision member true 4 "n2"
      ("denied", connected)

abbrev history : List IdentityCall
history =
    creating request 1 "flow1" "ABCDEFGH"
    ∷ deciding "flow1" decision member false 2 "n1"
    ∷ polling "flow1" asking true 3
    ∷ []

serve_all-IsSound_example : IsSound (shared (serve_all svc rt history start))
serve_all-IsSound_example = serve_all-IsSound svc rt history start start-IsSound

decide-KeepsQuota_example : KeepsQuota svc rt member pending connected
decide-KeepsQuota_example =
    decide-KeepsQuota svc rt "flow1" decision member false 2 "n1" pending connected "approved"
      decided_answer

abbrev same : Roll → Roll
same r = r

abbrev who : Principal
who =
    granted (record (authenticated "subject2" "issuer" "access2" "c@d") { expires_at = 100 })
      connected colleague

abbrev answer : Answer
answer = approved_as (record {
  session_token = "stpd_personal_aaaaaaaaaaaaaaaaaaaaaaaaaaaaaaaaaaaaaaaaaaaaaaaaaaaaaaaaaaaaaaaa";
  expires_at = some 100;
  principal = who;
  device_id = some "device-n1";
  device_name = "Desk";
  device_token =
      some "stpd_device_aaaaaaaaaaaaaaaaaaaaaaaaaaaaaaaaaaaaaaaaaaaaaaaaaaaaaaaaaaaaaaaa";
})

polled_answer : poll svc rt "flow1" asking false 3 3 same connected ≡ ok (answer, connected)
unfolding create fields decide ◌>>=◌ lookup only identity_text strip authorize client_hash
    known_device live_flows insert_flow find first_where flow_row compare_digest approve
    eligible_with all strip_left strip_right has_all is_in same_codes connect insert_device
    insert_session sts2_the_perfect_defect.Hub.Identity.device
    sts2_the_perfect_defect.Hub.Identity.found_by
    sts2_the_perfect_defect.Hub.Identity.found_claimable live_sessions or_text
    sts2_the_perfect_defect.Hub.Members.claims sts2_the_perfect_defect.Hub.Members.find_member
    sts2_the_perfect_defect.Hub.Members.owned sts2_the_perfect_defect.Hub.Members.settle_pending
    sorted_set take_up sts2_the_perfect_defect.Hub.Members.upsert_user
    sts2_the_perfect_defect.Hub.Members.authenticated_device
    sts2_the_perfect_defect.Hub.Members.device_authorized is_some
    sts2_the_perfect_defect.Hub.Members.owner_is_active is_address
    sts2_the_perfect_defect.Hub.Members.member_email log_event
    sts2_the_perfect_defect.Prelude.Result.branch sts2_the_perfect_defect.Prelude.Result.expect
    sts2_the_perfect_defect.Prelude.Result.guard sts2_the_perfect_defect.Prelude.Result.match_option
    update poll poll_flow answer_of personal look_at device_secret row_of row_stands is_personal
    drop verified_identity
polled_answer = refl

poll-IsHandedOut_example : IsHandedOut svc rt "flow1" asking 3 3 same connected answer
poll-IsHandedOut_example =
    poll-IsHandedOut svc rt "flow1" asking false 3 3 same connected connected answer polled_answer

abbrev bursts : List RateRequest
bursts =
    record { source = "a"; operation = "poll"; limit = 1; now = 1 }
    ∷ record { source = "b"; operation = "poll"; limit = 1; now = 2 }
    ∷ record { source = "a"; operation = "poll"; limit = 1; now = 3 }
    ∷ []

rate-limit_example : admitted svc "a" "poll" bursts start ≤ 1
rate-limit_example =
    rate-limit svc "a" "poll" (λ o. 1) 0 bursts start
      ((refl, refl), ((refl, refl), ((refl, refl), tt)))
