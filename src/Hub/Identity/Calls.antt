-- ===== src/Hub/Identity/Calls.antt =====
-- One call on the identity service, and any sequence of them, beside the calls on the membership.
use sts2_the_perfect_defect.Prelude.{ℕ, String, Bool, Option, List, [], ◌∷◌}
use sts2_the_perfect_defect.Boundary.Json.{Json}
use sts2_the_perfect_defect.Contracts.Runtime.{Runtime}
use sts2_the_perfect_defect.Hub.Members.{Roll, Principal, MemberCall, manage, settled}
use sts2_the_perfect_defect.Hub.Identity.Base.{Service}
use sts2_the_perfect_defect.Hub.Identity.Rates.{rate}
use sts2_the_perfect_defect.Hub.Identity.Flows.{device}
use sts2_the_perfect_defect.Hub.Identity.Decide.{create, decide}
use sts2_the_perfect_defect.Hub.Identity.Sessions.{poll_flow, personal, logout}

-- The calls that write; a poll's second transaction is `using`.
pub data IdentityCall : Type 0 where
  rating : String → String → ℕ → ℕ → IdentityCall
  beating : String → Option ℕ → IdentityCall
  creating : Json → ℕ → String → String → IdentityCall
  deciding : String → Json → Principal → Bool → ℕ → String → IdentityCall
  polling : String → Json → Bool → ℕ → IdentityCall
  using : String → ℕ → IdentityCall
  leaving : String → IdentityCall
  managing : MemberCall → IdentityCall

module _ (svc : Service) (rt : Runtime) where
  unfoldable pub serve : IdentityCall → Roll → Roll
  serve (rating source operation limit now) r = settled (rate svc source operation limit now r) r
  serve (beating token beat) r = settled (device rt token beat r) r
  serve (creating value now fresh code) r = settled (create svc rt value now fresh code r) r
  serve (deciding id value p deny now fresh) r =
      settled (decide svc rt id value p deny now fresh r) r
  serve (polling id value acknowledge now) r =
      settled (poll_flow svc rt id value acknowledge now r) r
  serve (using token now) r = settled (personal svc rt token now r) r
  serve (leaving token) r = settled (logout svc rt token r) r
  serve (managing c) r = manage rt c r

  unfoldable pub serve_all : List IdentityCall → Roll → Roll
  serve_all [] r = r
  serve_all (c ∷ cs) r = serve_all cs (serve c r)
