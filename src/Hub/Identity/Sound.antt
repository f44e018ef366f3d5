-- ===== src/Hub/Identity/Sound.antt =====
-- The tables behind the identity service keep their keys and their bounds.
use sts2_the_perfect_defect.Prelude.{
  ℕ, ◌≡◌, refl, ap, String, Option, List, [], ◌∷◌, string_eq, option_eq,
}
use sts2_the_perfect_defect.Contracts.Runtime.{Runtime}
use sts2_the_perfect_defect.Hub.Members.{Roll}
use sts2_the_perfect_defect.Hub.Members.Keys.{IsUnique}
use sts2_the_perfect_defect.Hub.Members.Touches.{
  Shared, shared, Touches, alone, ends, shuts, closes,
}
use sts2_the_perfect_defect.Hub.Identity.{
  Service, live_flows, live_sessions, IdentityCall, serve, serve_all,
}
use sts2_the_perfect_defect.Hub.Identity.Effects.{
  Decides, denies, grants, Serves, rates, beats, creates, decides, acknowledges, leaves, touches,
  drawn, serve-Serves,
}
use sts2_the_perfect_defect.Hub.Identity.Effects
use sts2_the_perfect_defect.Hub.Identity.Bounds.{
  live_flows-Thins, live_sessions-Thins, without_hash-Thins, without-Thins, AreFlows, AreSessions,
  thinned-AreFlows, thinned-AreSessions, denied-AreFlows, Closes-AreFlows, added-AreFlows,
  added-AreSessions, same_keys, closed-IsUnique, Connects-IsUnique,
}

pub record IsSound (t : Shared) : Type 0 where
  pub flows : AreFlows t.flows
  pub sessions : AreSessions t.sessions
  pub devices : IsUnique t.devices

Touches-IsSound : (t u : Shared) → Touches t u → IsSound t → IsSound u
Touches-IsSound t u (alone e) h = rw e h
Touches-IsSound t u (ends s e) h = rw e (record {
  flows = denied-AreFlows s t.flows h.flows;
  sessions = thinned-AreSessions (without-Thins s t.sessions) h.sessions;
  devices = h.devices;
})
Touches-IsSound t u (shuts s e) h = rw e (record {
  flows = denied-AreFlows s t.flows h.flows;
  sessions = thinned-AreSessions (without-Thins s t.sessions) h.sessions;
  devices = closed-IsUnique s t.devices h.devices;
})
Touches-IsSound t u (closes id e) h = rw e (record {
  flows = h.flows;
  sessions = h.sessions;
  devices = same_keys id _ t.devices (λ d. refl) (λ d. refl) h.devices;
})

only_flows-IsSound :
    (t u : Shared) → u ≡ (record t { flows = u.flows }) → AreFlows u.flows → IsSound t → IsSound u
only_flows-IsSound t u e a h = record {
  flows = a;
  sessions = rw (ap (λ (s : Shared). s.sessions) e) h.sessions;
  devices = rw (ap (λ (s : Shared). s.devices) e) h.devices;
}

Decides-IsSound :
    (id : String) (now : ℕ) (t u : Shared) → Decides id now t u → IsSound t → IsSound u
Decides-IsSound id now t u (denies c e) h =
    only_flows-IsSound t u e (Closes-AreFlows id t.flows u.flows c h.flows) h
Decides-IsSound id now t u (grants row q found same a) h = record {
  flows = Closes-AreFlows row.id t.flows u.flows a.flows h.flows;
  sessions = rw a.sessions (
      added-AreSessions a.session (live_sessions now t.sessions) a.fresh (rw a.subject a.room)
        (thinned-AreSessions (live_sessions-Thins now t.sessions) h.sessions));
  devices = Connects-IsUnique q t.devices u.devices row a.devices h.devices;
}

Serves-IsSound : (o : Option String) (t u : Shared) → Serves o t u → IsSound t → IsSound u
Serves-IsSound o t u (Effects.alone e) h = rw e h
Serves-IsSound o t u (rates e) h = record {
  flows = rw (ap (λ (s : Shared). s.flows) e) h.flows;
  sessions = rw (ap (λ (s : Shared). s.sessions) e) h.sessions;
  devices = rw (ap (λ (s : Shared). s.devices) e) h.devices;
}
Serves-IsSound o t u (beats i seen e) h = rw e (record {
  flows = h.flows;
  sessions = h.sessions;
  devices = same_keys i _ t.devices (λ d. refl) (λ d. refl) h.devices;
})
Serves-IsSound o t u (creates f now _ free room e) h = rw e (record {
  flows =
      added-AreFlows f (live_flows now t.flows) free room
        (thinned-AreFlows (live_flows-Thins now t.flows) h.flows);
  sessions = thinned-AreSessions (live_sessions-Thins now t.sessions) h.sessions;
  devices = h.devices;
})
Serves-IsSound o t u (decides i now x) h = Decides-IsSound i now t u x h
Serves-IsSound o t u (acknowledges i c e) h =
    only_flows-IsSound t u e (Closes-AreFlows i t.flows u.flows c h.flows) h
Serves-IsSound o t u (leaves hash e) h = rw e (record {
  flows = h.flows;
  sessions = thinned-AreSessions (without_hash-Thins hash t.sessions) h.sessions;
  devices = h.devices;
})
Serves-IsSound o t u (touches x) h = Touches-IsSound t u x h

module _ (svc : Service) (rt : Runtime) where
  -- Any sequence of calls keeps the names of connections, sessions and devices and the credentials
  -- of devices unique, at most 1000 connections, and at most 32 sessions of a subject.
  pub serve_all-IsSound :
      (cs : List IdentityCall) (r : Roll)
      → IsSound (shared r)
      → IsSound (shared (serve_all svc rt cs r))
  unfolding serve_all
  serve_all-IsSound [] r h = h
  serve_all-IsSound (c ∷ cs) r h =
      serve_all-IsSound cs (serve svc rt c r) (
        Serves-IsSound (drawn c) (shared r) (shared (serve svc rt c r)) (serve-Serves svc rt c r) h)
