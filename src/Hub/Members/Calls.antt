-- ===== src/Hub/Members/Calls.antt =====
-- One call on the membership, and what it leaves.
use sts2_the_perfect_defect.Prelude.{ℕ, String, Bool, List, [], ◌∷◌}
use sts2_the_perfect_defect.Prelude.Result.{Result, ok, err}
use sts2_the_perfect_defect.Boundary.Json.{Json}
use sts2_the_perfect_defect.Contracts.Runtime.{Runtime}
use sts2_the_perfect_defect.Hub.Members.Tables.{Roll, Principal}
use sts2_the_perfect_defect.Hub.Members.Access.{authorize}
use sts2_the_perfect_defect.Hub.Members.Manage.{
  invite, update_member, revoke_sessions, revoke_device,
}

pub data MemberCall : Type 0 where
  signing_in : Principal → Bool → MemberCall
  inviting : Principal → ℕ → Json → String → MemberCall
  updating : Principal → ℕ → String → Json → MemberCall
  ending_sessions : Principal → ℕ → String → MemberCall
  revoking : Principal → ℕ → String → MemberCall

-- A transaction is committed, or rolled back on an exception.
abbrev pub settled : {A : Type 0} → Result (A × Roll) → Roll → Roll
settled (ok (a, r')) r = r'
settled (err e) r = r

module _ (rt : Runtime) where
  unfoldable pub manage : MemberCall → Roll → Roll
  manage (signing_in p activate) r = settled (authorize rt p activate r) r
  manage (inviting p now value fresh) r = settled (invite rt p now value fresh r) r
  manage (updating p now id value) r = settled (update_member rt p now id value r) r
  manage (ending_sessions p now id) r = settled (revoke_sessions rt p now id r) r
  manage (revoking p now device) r = settled (revoke_device rt p now device r) r

  unfoldable pub manage_all : List MemberCall → Roll → Roll
  manage_all [] r = r
  manage_all (c ∷ cs) r = manage_all cs (manage c r)
