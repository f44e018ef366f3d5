-- ===== src/Hub/Members/Settings.antt =====
-- `member_email` and `settings` of stpd/hub/membership.py: what a request about a member may say.
use sts2_the_perfect_defect.Prelude.{
  ℕ, String, Bool, true, false, ◌&&◌, ◌||◌, not, Option, none, some, List, [], ◌∷◌, leb, ltb,
  length, ◌==◌, string_eq, nat_eq, if◌then◌else◌,
}
use sts2_the_perfect_defect.Prelude.Result.{Result, ok, err, ◌>>=◌}
use sts2_the_perfect_defect.Boundary.Json.{Json, Fields, flag, num, str, obj, end, field}
use sts2_the_perfect_defect.Boundary.Checks.{codes, all}
use sts2_the_perfect_defect.Contracts.Runtime.{Runtime}
use sts2_the_perfect_defect.Hub.Schema.{Role, MemberStatus, Role.member, admin, active, disabled}
use sts2_the_perfect_defect.Hub.Members.Tables.{membership}

-- `\s`
abbrev is_space : ℕ → Bool
is_space c =
    (leb 9 c && leb c 13)
    || ((leb 28 c && leb c 32)
        || (c == 133
            || (c == 160
                || (c == 5760
                    || ((leb 8192 c && leb c 8202)
                        || (c == 8232
                            || (c == 8233 || (c == 8239 || (c == 8287 || c == 12288)))))))))

-- `[^\s@]+@[^\s@]+`: `before` says whether a character stands before the sign, `after` after it.
unfoldable pub is_address : Bool → List ℕ → Bool
unfolding all
is_address before [] = false
is_address before (c ∷ cs) =
    let rest = is_address true cs in
    if c == 64
    then before && (ltb 0 (length cs) && all (λ d. not (is_space d || d == 64)) cs)
    else not (is_space c) && rest

-- The members that a request may have, each where it is there.
pub record Changes : Type 0 where
  pub role : Option Role
  pub status : Option MemberStatus
  pub enroll_devices : Option Bool
  pub device_quota : Option ℕ

pub record Invitation : Type 0 where
  pub email : String
  pub role : Role
  pub enroll_devices : Bool
  pub device_quota : ℕ

unfoldable pub lookup : String → Fields → Option Json
lookup name end = none
lookup name (field k v fs) = if k == name then some v else lookup name fs

unfoldable pub only : (String → Bool) → Fields → Bool
only allowed end = true
only allowed (field k v fs) = allowed k && only allowed fs

-- A dict that is not empty, of allowed names only
unfoldable pub request_fields : (String → Bool) → Json → Result Fields
unfolding only
request_fields allowed (obj (field k v fs)) =
    if only allowed (field k v fs)
    then ok (field k v fs)
    else err (membership "invalid_member_request")
request_fields allowed _ = err (membership "invalid_member_request")

unfoldable pub role_field : Option Json → Result (Option Role)
role_field none = ok none
role_field (some (str s)) =
    if s == "member"
    then ok (some member)
    else if s == "admin"
    then ok (some admin)
    else err (membership "invalid_member_request")
role_field (some _) = err (membership "invalid_member_request")

unfoldable pub status_field : Option Json → Result (Option MemberStatus)
status_field none = ok none
status_field (some (str s)) =
    if s == "active"
    then ok (some active)
    else if s == "disabled"
    then ok (some disabled)
    else err (membership "invalid_member_request")
status_field (some _) = err (membership "invalid_member_request")

unfoldable pub enroll_field : Option Json → Result (Option Bool)
enroll_field none = ok none
enroll_field (some (flag b)) = ok (some b)
enroll_field (some _) = err (membership "invalid_member_request")

unfoldable pub quota_field : Option Json → Result (Option ℕ)
quota_field none = ok none
quota_field (some (num n)) =
    if leb n 128 then ok (some n) else err (membership "invalid_member_request")
quota_field (some _) = err (membership "invalid_member_request")

abbrev pub or_else : {A : Type 0} → Option A → A → A
or_else none a = a
or_else (some a) b = a

abbrev common : String → Bool
common k = k == "role" || (k == "enroll_devices" || k == "device_quota")

module _ (rt : Runtime) where
  unfoldable pub member_email : Option Json → Result String
  unfolding is_address
  member_email (some (str s)) =
      if leb (length (codes s)) 254 && is_address false (codes s)
      then ok (rt.casefold s)
      else err (membership "invalid_member_email")
  member_email _ = err (membership "invalid_member_email")

  -- `settings(value, invite=True)`
  unfoldable pub invitation : Json → Result Invitation
  invitation value = do
    fs ← request_fields (λ k. common k || k == "email") value
    email ← member_email (lookup "email" fs)
    role ← role_field (lookup "role" fs)
    enroll ← enroll_field (lookup "enroll_devices" fs)
    quota ← quota_field (lookup "device_quota" fs)
    ok (record {
      email = email;
      role = or_else role member;
      enroll_devices = or_else enroll true;
      device_quota = or_else quota 3;
    })

-- `settings(value, invite=False)`
unfoldable pub settings : Json → Result Changes
settings value = do
  fs ← request_fields (λ k. common k || k == "status") value
  role ← role_field (lookup "role" fs)
  status ← status_field (lookup "status" fs)
  enroll ← enroll_field (lookup "enroll_devices" fs)
  quota ← quota_field (lookup "device_quota" fs)
  ok (record { role = role; status = status; enroll_devices = enroll; device_quota = quota })
