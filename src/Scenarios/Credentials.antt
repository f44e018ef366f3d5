-- ===== src/Scenarios/Credentials.antt =====
-- A revoked device, whose credential is rotated, and one that is revoked.
use sts2_the_perfect_defect.Prelude.{◌≡◌, refl, true, false, none, some, [], ◌∷◌, String, string_eq}
use sts2_the_perfect_defect.Prelude.Result.{ok, err, ◌>>=◌}
use sts2_the_perfect_defect.Prelude.Table.{find, update, first_where}
use sts2_the_perfect_defect.Prelude.Keyed.{IsKeyed}
use sts2_the_perfect_defect.Boundary.Checks.{all}
use sts2_the_perfect_defect.Hub.Schema.{Db, Device, log_event}
use sts2_the_perfect_defect.Hub.Jobs.{hub}
use sts2_the_perfect_defect.Hub.Members.{authenticate, revoke, rotate_device, is_some}
use sts2_the_perfect_defect.Hub.Members.Credentials.{
  device_hash, rotate_device-authenticate, authenticate-rotate_device,
}
use sts2_the_perfect_defect.Hub.Calls.{committed}
use sts2_the_perfect_defect.Hub.Members.Revocation.{authenticate-revoke, who, all_but}
use sts2_the_perfect_defect.Scenarios.Data.{rt, empty}

abbrev old_secret : String
old_secret = "old-secret-old-secret-old-secret"

abbrev new_secret : String
new_secret = "new-secret-new-secret-new-secret"

abbrev desktop : Device
desktop = record {
  id = "desktop";
  token_hash = old_secret;
  active = false;
  owner_subject = none;
  name = none;
  last_seen = none;
}

abbrev tablet : Device
tablet = record {
  id = "tablet";
  token_hash = "hash";
  active = true;
  owner_subject = none;
  name = none;
  last_seen = none;
}

abbrev before : Db
before = record empty { devices = tablet ∷ desktop ∷ [] }

abbrev after : Db
after = log_event "admin" "device_credential_rotated" "desktop" (record before {
  devices = tablet ∷ record desktop { token_hash = new_secret; active = true } ∷ [];
})

rotated_answer : rotate_device rt "desktop" new_secret before ≡ ok (tt, after)
unfolding rotate_device is_some find update first_where log_event ◌>>=◌ all
rotated_answer = refl

found_before : find (λ d. d.id) "desktop" before.devices ≡ some desktop
unfolding find
found_before = refl

apart : IsKeyed device_hash before.devices
unfolding find
apart = (refl, (refl, tt))

rotate_device-authenticate_example : authenticate rt old_secret after ≡ err (hub "unauthorized")
rotate_device-authenticate_example =
    rotate_device-authenticate rt "desktop" new_secret old_secret desktop before after apart
      found_before refl rotated_answer

authenticate-rotate_device_example : authenticate rt new_secret after ≡ ok ("desktop", after)
authenticate-rotate_device_example =
    authenticate-rotate_device rt "desktop" new_secret desktop before after found_before refl
      rotated_answer

authenticate-revoke_example :
    who (authenticate rt "hash" (committed (revoke "tablet" before) before))
    ≡ all_but "tablet" (who (authenticate rt "hash" before))
authenticate-revoke_example = authenticate-revoke rt "tablet" "hash" before
