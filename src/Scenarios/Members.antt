-- ===== src/Scenarios/Members.antt =====
-- An administrator, and a member with a device, who is disabled.
use sts2_the_perfect_defect.Prelude.{
  ◌≤◌, ◌≡◌, refl, true, false, none, some, [], ◌∷◌, arith, string_eq,
}
use sts2_the_perfect_defect.Prelude.Result.{ok, ◌>>=◌}
use sts2_the_perfect_defect.Prelude.Table.{find, update, first_where}
use sts2_the_perfect_defect.Boundary.Json.{Json, str, obj, field, end}
use sts2_the_perfect_defect.Hub.Schema.{
  Device, Member, Role.member, admin, active, disabled, log_event,
}
use sts2_the_perfect_defect.Hub.Members.{
  Roll, Principal, authorize, granted, find_member, update_member, updating, settled, manage_all,
  active_admins, MemberView, view_of, settings, request_fields, only, lookup, role_field,
  status_field, enroll_field, quota_field, admin_of, public, clear_sessions, without, for_subject,
  take_up,
}
use sts2_the_perfect_defect.Hub.Members.Admins.{last_admin_stays}
use sts2_the_perfect_defect.Hub.Members.Grants.{authorize-Grants, Grants, IsAdmin}
use sts2_the_perfect_defect.Hub.Members.Shutout.{update_member-IsShutOut, IsLeft}
use sts2_the_perfect_defect.Scenarios.Data.{rt, empty}

abbrev pub administrator : Member
administrator = record {
  id = "m1";
  email = "a@b";
  issuer = "issuer";
  access_subject = some "access1";
  subject = some "subject1";
  role = admin;
  status = active;
  enroll_devices = true;
  device_quota = 3;
}

abbrev pub colleague : Member
colleague = record administrator {
  id = "m2";
  email = "c@d";
  access_subject = some "access2";
  subject = some "subject2";
  role = member;
}

abbrev pub laptop : Device
laptop = record {
  id = "laptop";
  token_hash = "hash";
  active = true;
  owner_subject = some "subject2";
  name = none;
  last_seen = none;
}

abbrev pub roll : Roll
roll = record {
  db = record empty { devices = laptop ∷ []; members = administrator ∷ colleague ∷ [] };
  is_initialized = true;
  pending_admin = none;
  users = [];
  sessions = record { token_hash = "t"; subject = "subject2"; expires_at = 9; created_at = 1 } ∷ [];
  flows = [];
  rates = [];
  scopes = [];
}

abbrev pub signed_in : Principal
signed_in = record {
  role = member;
  status = active;
  subject = "subject1";
  email = "a@b";
  issuer = "issuer";
  access_subject = "access1";
  expires_at = 100;
  session_binding = "browser";
  member_id = "";
  enroll_devices = false;
  device_quota = 0;
  devices = [];
  owned_devices = [];
  claim_devices = [];
}

abbrev pub disabling : Json
disabling = obj (field "status" (str "disabled") end)

abbrev left : Roll
left = settled (update_member rt signed_in 5 "m2" disabling roll) roll

abbrev shown : MemberView
shown = view_of left (record colleague { status = disabled })

signed_answer : authorize rt signed_in false roll ≡ ok (granted signed_in roll administrator, roll)
unfolding authorize find_member update_member settings request_fields only lookup role_field
    status_field enroll_field quota_field admin_of public clear_sessions without for_subject take_up
    find update first_where log_event ◌>>=◌
signed_answer = refl

disabled_answer : update_member rt signed_in 5 "m2" disabling roll ≡ ok (shown, left)
unfolding authorize find_member update_member settings request_fields only lookup role_field
    status_field enroll_field quota_field admin_of public clear_sessions without for_subject take_up
    find update first_where log_event ◌>>=◌
disabled_answer = refl

last_admin_stays_example :
    1
    ≤ active_admins (
        manage_all rt
          (updating signed_in 5 "m1" disabling ∷ updating signed_in 6 "m2" disabling ∷ [])
          roll)
last_admin_stays_example =
    last_admin_stays rt
      (updating signed_in 5 "m1" disabling ∷ updating signed_in 6 "m2" disabling ∷ []) roll
      (omega arith)

authorize-Grants_example :
    Grants signed_in (granted signed_in roll administrator) roll × (roll ≡ roll)
authorize-Grants_example =
    authorize-Grants rt signed_in (granted signed_in roll administrator) roll roll signed_answer

update_member-IsShutOut_example :
    IsAdmin rt signed_in 5 roll × IsLeft disabled (some "subject2") left
update_member-IsShutOut_example =
    update_member-IsShutOut rt signed_in 5 "m2" disabling roll left shown disabled_answer
