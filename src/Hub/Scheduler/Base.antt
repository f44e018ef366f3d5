-- ===== src/Hub/Scheduler/Base.antt =====
-- The state of a `Scheduler`, what it is configured with, and what answers it.
use sts2_the_perfect_defect.Prelude.{
  ℕ, String, Bool, Option, none, some, List, [], ◌∷◌, ◌++◌, ◌==◌, string_eq, if◌then◌else◌,
}
use sts2_the_perfect_defect.Prelude.Result.{Result, ok, err}
use sts2_the_perfect_defect.Contracts.Runtime.{Runtime}
use sts2_the_perfect_defect.Contracts.Request.{ComputeRequest}
use sts2_the_perfect_defect.Contracts.Receipt.{ComputeReceipt}
use sts2_the_perfect_defect.Contracts.Call.{ModalCall, ModalTarget}
use sts2_the_perfect_defect.Hub.Schema.{Db}
use sts2_the_perfect_defect.Hub.Jobs.{Tx}
use sts2_the_perfect_defect.Hub.Calls.{Call, perform_all}
use sts2_the_perfect_defect.Hub.Exec.{Exec}

-- A call of the provider, with the job that it is made for.
pub data ProviderCall : Type 0 where
  submitting : String → ComputeRequest → ProviderCall
  polling : String → ModalCall → ProviderCall
  cancelling : String → ModalCall → ProviderCall

-- `others` is what the other clients of the database (the web application, the operator's commands)
-- do before each of the scheduler's next transactions; `calls` is what the provider has seen.
pub record State : Type 0 where
  pub db : Db
  pub tokens : List (String × String)
  pub closed : Bool
  pub calls : List ProviderCall
  pub others : List (List Call)

pub record Config : Type 0 where
  pub runtime : Runtime
  pub target : ModalTarget
  pub budget_limit : ℕ

-- What the outside answers in one tick: the secrets that are drawn; `admit`, which stands for the
-- store checks of `_preflight` (`load_feature_job`, `load_training_input` and the run's manifest);
-- the provider's `submit` (`none` if it raises), `poll` and `cancel` (`false` if it raises);
-- `validate_receipt` over the store; and whether the console index and its failure event are
-- written.
pub record World : Type 0 where
  pub lease_token : String
  pub attempt_id : String
  pub recovered_token : String
  pub admit : ComputeRequest → Result (Unit {0})
  pub submit : ComputeRequest → Option ModalCall
  pub poll : ModalCall → Result (Option ComputeReceipt)
  pub cancel : ModalCall → Bool
  pub validate : ComputeRequest → ComputeReceipt → Result (Unit {0})
  pub indexed : Bool
  pub index_event : Bool

-- `_reply`
pub record Reply : Type 0 where
  pub state : String
  pub job_id : Option String
  pub detail : List (String × String)

abbrev pub reply : String → Option String → List (String × String) → Reply
reply state job detail = record { state = state; job_id = job; detail = detail }

unfoldable pub after_others : Runtime → State → List (List Call) → State
after_others rt s [] = s
after_others rt s (cs ∷ more) = record s { db = perform_all rt cs s.db; others = more }

unfoldable pub transacted : {A : Type 0} → State → Result (A × Db) → Result A × State
transacted s (ok (a, db)) = (ok a, record s { db = db })
transacted s (err e) = (err e, s)

-- A call of `self.operations`, after what the others do meanwhile: its transaction is committed, or
-- rolled back on an exception.
unfoldable pub call : {A : Type 0} → Runtime → Tx A → Exec State A
unfolding transacted after_others
call rt m s = let t = after_others rt s s.others in transacted t (m t.db)

-- A transaction that only reads.
unfoldable pub look : {A : Type 0} → Runtime → (Db → A) → Exec State A
look rt f = call rt (λ db. ok (f db, db))

unfoldable pub note_call : ProviderCall → State → State
note_call c s = record s { calls = s.calls ++ c ∷ [] }

unfoldable pub token_of : String → List (String × String) → Option String
token_of job [] = none
token_of job ((j, t) ∷ ts) = if j == job then some t else token_of job ts

unfoldable pub set_token : String → String → State → State
set_token job token s = record s { tokens = (job, token) ∷ s.tokens }
