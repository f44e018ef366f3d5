-- ===== src/Hub/Members/Tables.antt =====
-- The tables behind the membership (the identity tables of stpd/hub/database.py), and a principal
-- (stpd/hub/console_auth.py).
use sts2_the_perfect_defect.Prelude.{ℕ, String, Bool, Option, List}
use sts2_the_perfect_defect.Prelude.Result.{Error, Result, boundary}
use sts2_the_perfect_defect.Hub.Schema.{Db, Role, MemberStatus}

pub record User : Type 0 where
  pub subject : String
  pub issuer : String
  pub access_subject : String
  pub email : String

-- Times are whole microseconds.
pub record Session : Type 0 where
  pub token_hash : String
  pub subject : String
  pub expires_at : ℕ
  pub created_at : ℕ

-- A connection that a device asks for and a member approves
pub record Flow : Type 0 where
  pub id : String
  pub client_hash : String
  pub device_name : String
  pub device_id : Option String
  pub device_proof_hash : Option String
  pub user_code : String
  pub created_at : ℕ
  pub expires_at : ℕ
  pub status : String
  pub key_id : String
  pub subject : Option String
  pub session_hash : Option String
  pub session_expires_at : Option ℕ
  pub new_device : Bool

-- How often a source has asked for an operation in one minute
pub record Rate : Type 0 where
  pub source : String
  pub bucket : ℕ
  pub count : ℕ

-- `is_initialized` and `pending_admin` are the two rows of `settings` that the membership writes.
pub record Roll : Type 0 where
  pub db : Db
  pub is_initialized : Bool
  pub pending_admin : Option String
  pub users : List User
  pub sessions : List Session
  pub flows : List Flow
  pub rates : List Rate
  pub scopes : List (String × String)

pub record Principal : Type 0 where
  pub role : Role
  pub status : MemberStatus
  pub subject : String
  pub email : String
  pub issuer : String
  pub access_subject : String
  pub expires_at : ℕ
  pub session_binding : String
  pub member_id : String
  pub enroll_devices : Bool
  pub device_quota : ℕ
  pub devices : List String
  pub owned_devices : List String
  pub claim_devices : List String

abbrev pub RollTx : Type 0 → Type 0
RollTx A = Roll → Result (A × Roll)

abbrev pub membership : String → Error
membership code = boundary "membership" code
