-- ===== src/Hub/Identity/Approval.antt =====
-- A connection is decided once.
use sts2_the_perfect_defect.Prelude.{
  ℕ, ◌≡◌, refl, ap, String, Bool, true, false, ◌&&◌, Option, none, some, List, [], ◌∷◌, map, arith,
  ltb, ◌==◌, string_eq, Bool-cases, inl, inr, eq_iff, All, All-append, option_eq,
}
use sts2_the_perfect_defect.Prelude.Result.{
  ok, Ensures, Ensures-bind, Ensures-guard, Ensures-expect,
}
use sts2_the_perfect_defect.Prelude.Table.{find, update, All-update, All-find, key-find}
use sts2_the_perfect_defect.Prelude.Keyed.{IsKeyed}
use sts2_the_perfect_defect.Boundary.Json.{Json}
use sts2_the_perfect_defect.Contracts.Runtime.{Runtime}
use sts2_the_perfect_defect.Hub.Members.{Roll, Principal, Flow, deny}
use sts2_the_perfect_defect.Hub.Members.Touches.{
  Shared, shared, Touches, alone, ends, shuts, closes, authorize-Quiet,
}
use sts2_the_perfect_defect.Hub.Identity.{
  Service, flow_id, live_flows, flow_row, decide, IdentityCall, serve, serve_all,
}
use sts2_the_perfect_defect.Hub.Identity.Approves.{Closes}
use sts2_the_perfect_defect.Hub.Identity.Effects.{
  Decides, denies, grants, Serves, rates, beats, creates, decides, acknowledges, leaves, touches,
  drawn, decide-Decides, serve-Serves,
}
use sts2_the_perfect_defect.Hub.Identity.Effects

-- No row of this name waits for a decision.
abbrev pub IsClosed : String → Flow → Type 0
IsClosed id f = ((f.id == id) && (f.status == "pending")) ≡ false

IsClosed-status : (id : String) (f : Flow) → (f.status == "pending") ≡ false → IsClosed id f
IsClosed-status id f h = elim (Bool-cases (f.id == id)) [ inl e ↦ rw e h | inr e ↦ rw e refl ]

live-All : (P : Flow → Type 0) (now : ℕ) (fs : List Flow) → All P fs → All P (live_flows now fs)
unfolding live_flows
live-All P now [] a = tt
live-All P now (f ∷ fs) a = elim (Bool-cases (ltb now f.expires_at)) [
  | inl e ↦ rw e (a.0, live-All P now fs a.1)
  | inr e ↦ rw e (live-All P now fs a.1)
]

deny-IsClosed : (id s : String) (f : Flow) → IsClosed id f → IsClosed id (deny s f)
deny-IsClosed id s f h = elim (Bool-cases (f.subject == some s && f.status == "approved")) [
  | inl e ↦ rw e (IsClosed-status id (record f { status = "denied" }) refl)
  | inr e ↦ rw e h
]

map-IsClosed :
    (id s : String) (fs : List Flow) → All (IsClosed id) fs → All (IsClosed id) (map (deny s) fs)
map-IsClosed id s [] a = tt
map-IsClosed id s (f ∷ fs) a = (deny-IsClosed id s f a.0, map-IsClosed id s fs a.1)

Closes-IsClosed :
    (id j : String) (fs gs : List Flow)
    → Closes j fs gs
    → All (IsClosed id) fs
    → All (IsClosed id) gs
Closes-IsClosed id j fs gs c a = rw c.changed (
    All-update flow_id (IsClosed id) j c.change fs a
      (λ f _. IsClosed-status id (c.change f) (c.closed f)))

absent-IsClosed : (id : String) (fs : List Flow) → find flow_id id fs ≡ none → All (IsClosed id) fs
unfolding find
absent-IsClosed id [] h = tt
absent-IsClosed id (f ∷ fs) h = elim (Bool-cases (f.id == id)) [
  | inl e ↦ let no : some f ≡ none = rw e at h in absurd (cc)
  | inr e ↦ (rw e refl, absent-IsClosed id fs (rw e at h))
]

-- Where names are unique, a decision closes its connection.
update-IsClosed :
    (id : String) (change : Flow → Flow) (fs : List Flow)
    → ((f : Flow) → ((change f).status == "pending") ≡ false)
    → IsKeyed flow_id fs
    → All (IsClosed id) (update flow_id id change fs)
unfolding update
update-IsClosed id change [] closed keyed = tt
update-IsClosed id change (f ∷ fs) closed keyed = elim (Bool-cases (f.id == id)) [
  | inl e ↦
      let same = (eq_iff f.id id).0 e in
      let absent : find flow_id id fs ≡ none = rw (← same) keyed.0 in
      rw e (IsClosed-status id (change f) (closed f), absent-IsClosed id fs absent)
  | inr e ↦ rw e (rw e refl, update-IsClosed id change fs closed keyed.1)
]

Touches-IsClosed :
    (id : String) (t u : Shared)
    → Touches t u
    → All (IsClosed id) t.flows
    → All (IsClosed id) u.flows
Touches-IsClosed id t u (alone e) a = rw (ap (λ (s : Shared). s.flows) e) a
Touches-IsClosed id t u (ends s e) a =
    rw (ap (λ (s : Shared). s.flows) e) (map-IsClosed id s t.flows a)
Touches-IsClosed id t u (shuts s e) a =
    rw (ap (λ (s : Shared). s.flows) e) (map-IsClosed id s t.flows a)
Touches-IsClosed id t u (closes d e) a = rw (ap (λ (s : Shared). s.flows) e) a

Decides-Closes :
    (id : String) (now : ℕ) (t u : Shared) → Decides id now t u → Closes id t.flows u.flows
Decides-Closes id now t u (denies c e) = c
Decides-Closes id now t u (grants row q found same a) = rw (← same) a.flows

Serves-IsClosed :
    (id : String) (o : Option String) (t u : Shared)
    → (o == some id) ≡ false
    → Serves o t u
    → All (IsClosed id) t.flows
    → All (IsClosed id) u.flows
Serves-IsClosed id o t u d (Effects.alone e) a = rw (ap (λ (s : Shared). s.flows) e) a
Serves-IsClosed id o t u d (rates e) a = rw (ap (λ (s : Shared). s.flows) e) a
Serves-IsClosed id o t u d (beats i seen e) a = rw (ap (λ (s : Shared). s.flows) e) a
Serves-IsClosed id o t u d (creates f now draws free room e) a =
    let other : (some f.id == some id) ≡ false = rw draws at d in
    rw (ap (λ (s : Shared). s.flows) e) (
      All-append (IsClosed id) (live_flows now t.flows) (f ∷ [])
        (live-All (IsClosed id) now t.flows a) (ground (arith, other), tt))
Serves-IsClosed id o t u d (decides i now x) a =
    Closes-IsClosed id i t.flows u.flows (Decides-Closes i now t u x) a
Serves-IsClosed id o t u d (acknowledges i c e) a = Closes-IsClosed id i t.flows u.flows c a
Serves-IsClosed id o t u d (leaves h e) a = rw (ap (λ (s : Shared). s.flows) e) a
Serves-IsClosed id o t u d (touches x) a = Touches-IsClosed id t u x a

waits_not :
    (id : String) (f : Flow)
    → f.id ≡ id
    → IsClosed id f
    → (b : Bool) → (f.status == "pending" && b) ≡ true
    → ⊥
waits_not id f same closed b waits = ground (arith, same, closed, eq_iff f.id id)

module _ (svc : Service) (rt : Runtime) where
  serve_all-IsClosed :
      (id : String) (cs : List IdentityCall) (r : Roll)
      → All (λ (c : IdentityCall). (drawn c == some id) ≡ false) cs
      → All (IsClosed id) r.flows
      → All (IsClosed id) (serve_all svc rt cs r).flows
  unfolding serve_all
  serve_all-IsClosed id [] r d a = a
  serve_all-IsClosed id (c ∷ cs) r d a = serve_all-IsClosed id cs (serve svc rt c r) d.1 (
      Serves-IsClosed id (drawn c) (shared r) (shared (serve svc rt c r)) d.0
        (serve-Serves svc rt c r) a)

  -- No row of this name waits, so a decision about it is refused.
  IsClosed-decide :
      (id : String) (value : Json) (p : Principal) (deny : Bool) (now : ℕ) (fresh : String)
      (r : Roll)
      → All (IsClosed id) r.flows
      → Ensures (λ _. ⊥) (decide svc rt id value p deny now fresh r)
  unfolding decide flow_row
  IsClosed-decide id value p deny now fresh r a = Ensures-bind _ _ λ body _.
      Ensures-bind _ _ λ code _. Ensures-bind _ _ λ (q, r1) e. Ensures-expect _ _ _ λ row found.
        Ensures-guard _ _ _ λ waits.
          let quiet =
            ap (λ (s : Shared). s.flows) ((authorize-Quiet rt p false r).holds (q, r1) e) in
          let closed = All-find flow_id (IsClosed id) id r1.flows row (rw (← quiet) at a) found in
          let same = key-find flow_id id r1.flows row found in
          absurd (waits_not id row same closed _ waits)

  -- After a decision that was committed, whatever is called then, no further decision about the
  -- connection goes through, as long as no new connection draws its name.
  pub decide_once :
      (id : String) (value : Json) (p : Principal) (deny : Bool) (now : ℕ) (fresh : String)
      (r r' : Roll) (answer : String)
      → IsKeyed flow_id r.flows
      → decide svc rt id value p deny now fresh r ≡ ok (answer, r')
      → (cs : List IdentityCall) → All (λ (c : IdentityCall). (drawn c == some id) ≡ false) cs
      → (value' : Json) (p' : Principal) (deny' : Bool) (now' : ℕ) (fresh' : String)
      → (a : String × Roll)
      → ¬ (decide svc rt id value' p' deny' now' fresh' (serve_all svc rt cs r') ≡ ok a)
  decide_once id value p deny now fresh r r' answer keyed h cs d value' p' deny' now' fresh' a
        again =
      let x = (decide-Decides svc rt id value p deny now fresh r).holds (answer, r') h in
      let c = Decides-Closes id now (shared r) (shared r') x in
      let closed : All (IsClosed id) r'.flows =
        rw c.changed (update-IsClosed id c.change r.flows c.closed keyed) in
      (IsClosed-decide id value' p' deny' now' fresh' (serve_all svc rt cs r')
          (serve_all-IsClosed id cs r' d closed)).holds
        a again
