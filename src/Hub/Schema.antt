-- ===== src/Hub/Schema.antt =====
-- The rows of the operations database (the CREATE TABLE statements of stpd/hub/database.py). A
-- document column holds the document itself, where the database holds its sorted dump.
use sts2_the_perfect_defect.Prelude.{
  ℕ, ◌*◌, String, ◌≡◌, Bool, true, false, Option, List, [], ◌∷◌, ◌++◌, Eq, ◌==◌, nat_eq, arith, ◌↔◌,
}
use sts2_the_perfect_defect.Prelude.Result.{Result, ok, err, Error}
use sts2_the_perfect_defect.Boundary.Json.{Json}

-- A clock reading, in microseconds since the epoch; `non_finite` is a float that is no number or
-- infinite. Rounding of floats, and readings before the epoch, are not modelled.
pub data Instant : Type 0 where
  at : ℕ → Instant
  non_finite : Instant

abbrev pub seconds : ℕ → ℕ
seconds n = n * 1000000

-- `if not math.isfinite(now): raise error`
abbrev pub finite : Instant → Error → Result ℕ
finite (at t) e = ok t
finite non_finite e = err e

pub data Status : Type 0 where
  queued running submission_unknown uncertain cancelling completed paused failed cancelled : Status

abbrev pub ordinal : Status → ℕ
ordinal queued = 0
ordinal running = 1
ordinal submission_unknown = 2
ordinal uncertain = 3
ordinal cancelling = 4
ordinal completed = 5
ordinal paused = 6
ordinal failed = 7
ordinal cancelled = 8

abbrev pub status_beq : Status → Status → Bool
status_beq a b = ordinal a == ordinal b

pub status_beq_iff : (a b : Status) → (status_beq a b ≡ true) ↔ (a ≡ b)
status_beq_iff a b = ground arith

instance abbrev pub status_eq : Eq Status
status_eq = record { beq = status_beq; beq_iff = status_beq_iff }

-- `status IN ('running','submission_unknown','uncertain','cancelling')`
abbrev pub is_active : Status → Bool
is_active running = true
is_active submission_unknown = true
is_active uncertain = true
is_active cancelling = true
is_active _ = false

-- `status in {"completed", "paused", "failed", "cancelled"}`
abbrev pub is_settled : Status → Bool
is_settled completed = true
is_settled paused = true
is_settled failed = true
is_settled cancelled = true
is_settled _ = false

pub record Job : Type 0 where
  pub id : String
  pub request_key : String
  pub kind : String
  pub input_id : String
  pub max_seconds : ℕ
  pub reserved_units : ℕ
  pub status : Status
  pub fence : ℕ
  pub attempt_id : Option String
  pub lease_hash : Option String
  pub lease_until : Option ℕ
  pub deadline : Option ℕ
  pub provider_ref : Option String
  pub result : Option Json
  pub options : Json

pub data Phase : Type 0 where
  submitting submitted settled_cancelled settled_paused settled_completed : Phase

pub data CancelState : Type 0 where
  requested acknowledged unknown : CancelState

pub record ComputeAttempt : Type 0 where
  pub job_id : String
  pub attempt_id : String
  pub fence : ℕ
  pub request_id : String
  pub request : Json
  pub target_id : String
  pub phase : Phase
  pub handle : Option Json
  pub cancel_state : Option CancelState
  pub last_error : Option String
  pub receipt : Option Json

pub record Device : Type 0 where
  pub id : String
  pub token_hash : String
  pub active : Bool
  pub owner_subject : Option String
  pub name : Option String
  pub last_seen : Option ℕ

pub data UploadStatus : Type 0 where
  awaiting_upload verification_pending verified quarantined transfer_failed : UploadStatus

abbrev pub upload_ordinal : UploadStatus → ℕ
upload_ordinal awaiting_upload = 0
upload_ordinal verification_pending = 1
upload_ordinal verified = 2
upload_ordinal quarantined = 3
upload_ordinal transfer_failed = 4

abbrev pub upload_status_beq : UploadStatus → UploadStatus → Bool
upload_status_beq a b = upload_ordinal a == upload_ordinal b

pub upload_status_beq_iff : (a b : UploadStatus) → (upload_status_beq a b ≡ true) ↔ (a ≡ b)
upload_status_beq_iff a b = ground arith

instance abbrev pub upload_status_eq : Eq UploadStatus
upload_status_eq = record { beq = upload_status_beq; beq_iff = upload_status_beq_iff }

pub record Upload : Type 0 where
  pub id : String
  pub device : String
  pub content_id : String
  pub manifest_sha : String
  pub intent : Json
  pub status : UploadStatus
  pub receipt : Option Json
  pub verify_attempts : ℕ
  pub retry_at : ℕ
  pub last_error : Option String

pub data Role : Type 0 where
  member admin : Role

pub data MemberStatus : Type 0 where
  invited active disabled : MemberStatus

abbrev pub role_beq : Role → Role → Bool
role_beq member member = true
role_beq admin admin = true
role_beq _ _ = false

pub role_beq_iff : (a b : Role) → (role_beq a b ≡ true) ↔ (a ≡ b)
role_beq_iff a b = ground arith

instance abbrev pub role_eq : Eq Role
role_eq = record { beq = role_beq; beq_iff = role_beq_iff }

abbrev pub member_status_beq : MemberStatus → MemberStatus → Bool
member_status_beq invited invited = true
member_status_beq active active = true
member_status_beq disabled disabled = true
member_status_beq _ _ = false

pub member_status_beq_iff : (a b : MemberStatus) → (member_status_beq a b ≡ true) ↔ (a ≡ b)
member_status_beq_iff a b = ground arith

instance abbrev pub member_status_eq : Eq MemberStatus
member_status_eq = record { beq = member_status_beq; beq_iff = member_status_beq_iff }

pub record Member : Type 0 where
  pub id : String
  pub email : String
  pub issuer : String
  pub access_subject : Option String
  pub subject : Option String
  pub role : Role
  pub status : MemberStatus
  pub enroll_devices : Bool
  pub device_quota : ℕ

-- The audit log, without its time stamp and its detail document.
pub record Event : Type 0 where
  pub actor : String
  pub operation : String
  pub subject : String

pub record Db : Type 0 where
  pub paused : Bool
  pub devices : List Device
  pub uploads : List Upload
  pub jobs : List Job
  pub attempts : List ComputeAttempt
  pub members : List Member
  pub events : List Event

-- `_event`
unfoldable pub log_event : String → String → String → Db → Db
log_event actor operation subject db = record db {
  events = db.events ++ record { actor = actor; operation = operation; subject = subject } ∷ [];
}

-- The columns by which rows are looked up.
abbrev pub job_id : Job → String
job_id j = j.id

abbrev pub attempt_job : ComputeAttempt → String
attempt_job a = a.job_id

abbrev pub upload_id : Upload → String
upload_id u = u.id

abbrev pub device_id : Device → String
device_id d = d.id

abbrev pub member_id : Member → String
member_id m = m.id
