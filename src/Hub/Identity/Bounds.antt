-- ===== src/Hub/Identity/Bounds.antt =====
-- Connections, sessions and devices, and what keeps their keys and their bounds.
use sts2_the_perfect_defect.Prelude.{
  ℕ, suc, ◌+◌, ◌≤◌, ◌≡◌, refl, sym, ap, ◌∙◌, String, true, ◌&&◌, none, some, List, [], ◌∷◌, ◌++◌,
  map, arith, ltb, length, total-append, ◌==◌, string_eq, option_eq, Bool-cases, inl, inr, eq_iff,
}
use sts2_the_perfect_defect.Prelude.Table.{find, update}
use sts2_the_perfect_defect.Prelude.Keyed.{IsKeyed, update-IsKeyed, append-IsKeyed, map-IsKeyed}
use sts2_the_perfect_defect.Prelude.Thin.{
  Thins, done, keeps, drops, Thins-total, Thins-length, Thins-IsKeyed, length-append, length-update,
}
use sts2_the_perfect_defect.Hub.Schema.{Device, device_id}
use sts2_the_perfect_defect.Hub.Members.{
  Principal, Flow, Session, deny, close_device, without, one_when,
}
use sts2_the_perfect_defect.Hub.Members.Credentials.{device_hash, first_where-find}
use sts2_the_perfect_defect.Hub.Members.Keys.{IsUnique, kept-IsKeyed}
use sts2_the_perfect_defect.Hub.Identity.{
  flow_id, session_hash, live_flows, live_sessions, sessions_of, without_hash,
}
use sts2_the_perfect_defect.Hub.Identity.Approves.{Closes, Connects, registers, claims}

pub live_flows-Thins : (now : ℕ) (fs : List Flow) → Thins fs (live_flows now fs)
unfolding live_flows
live_flows-Thins now [] = done
live_flows-Thins now (f ∷ fs) = elim (Bool-cases (ltb now f.expires_at)) [
  | inl e ↦ rw e (keeps (live_flows-Thins now fs))
  | inr e ↦ rw e (drops (live_flows-Thins now fs))
]

pub live_sessions-Thins : (now : ℕ) (ss : List Session) → Thins ss (live_sessions now ss)
unfolding live_sessions
live_sessions-Thins now [] = done
live_sessions-Thins now (s ∷ ss) = elim (Bool-cases (ltb now s.expires_at)) [
  | inl e ↦ rw e (keeps (live_sessions-Thins now ss))
  | inr e ↦ rw e (drops (live_sessions-Thins now ss))
]

pub without_hash-Thins : (hash : String) (ss : List Session) → Thins ss (without_hash hash ss)
unfolding without_hash
without_hash-Thins hash [] = done
without_hash-Thins hash (s ∷ ss) = elim (Bool-cases (s.token_hash == hash)) [
  | inl e ↦ rw e (drops (without_hash-Thins hash ss))
  | inr e ↦ rw e (keeps (without_hash-Thins hash ss))
]

pub without-Thins : (subject : String) (ss : List Session) → Thins ss (without subject ss)
unfolding without
without-Thins subject [] = done
without-Thins subject (s ∷ ss) = elim (Bool-cases (s.subject == subject)) [
  | inl e ↦ rw e (drops (without-Thins subject ss))
  | inr e ↦ rw e (keeps (without-Thins subject ss))
]

-- At most a thousand connections, and thirty-two sessions of a subject; all keys are unique.
pub record AreFlows (fs : List Flow) : Type 0 where
  pub unique : IsKeyed flow_id fs
  pub room : length fs ≤ 1000

pub record AreSessions (ss : List Session) : Type 0 where
  pub unique : IsKeyed session_hash ss
  pub room : (subject : String) → sessions_of subject ss ≤ 32

pub thinned-AreFlows : {t u : List Flow} → Thins t u → AreFlows t → AreFlows u
thinned-AreFlows x a = record {
  unique = Thins-IsKeyed flow_id x a.unique;
  room = omega (arith, Thins-length x, a.room);
}

pub thinned-AreSessions : {t u : List Session} → Thins t u → AreSessions t → AreSessions u
thinned-AreSessions x a = record {
  unique = Thins-IsKeyed session_hash x a.unique;
  room = λ s. omega (arith, Thins-total (λ (x : Session). one_when (x.subject == s)) x, a.room s);
}

pub length-map : (s : String) (fs : List Flow) → length (map (deny s) fs) ≡ length fs
length-map s [] = refl
length-map s (f ∷ fs) = ap suc (length-map s fs)

pub deny-id : (s : String) (f : Flow) → (deny s f).id ≡ f.id
deny-id s f = elim (Bool-cases (f.subject == some s && f.status == "approved")) [
  | inl e ↦ rw e refl
  | inr e ↦ rw e refl
]

pub denied-AreFlows : (s : String) (fs : List Flow) → AreFlows fs → AreFlows (map (deny s) fs)
denied-AreFlows s fs a = record {
  unique = map-IsKeyed flow_id (deny s) fs (deny-id s) a.unique;
  room = omega (arith, length-map s fs, a.room);
}

pub Closes-AreFlows :
    (id : String) (fs gs : List Flow) → Closes id fs gs → AreFlows fs → AreFlows gs
Closes-AreFlows id fs gs c a = rw c.changed (record {
  unique = update-IsKeyed flow_id id c.change fs (λ f _. c.same_id f) a.unique;
  room = omega (arith, length-update flow_id id c.change fs, a.room);
})

pub added-AreFlows :
    (f : Flow) (fs : List Flow)
    → find flow_id f.id fs ≡ none
    → ltb (length fs) 1000 ≡ true
    → AreFlows fs
    → AreFlows (fs ++ f ∷ [])
added-AreFlows f fs free room a = record {
  unique = append-IsKeyed flow_id fs f free a.unique;
  room = ground (arith, length-append fs (f ∷ []));
}

pub one_more :
    (x : Session) (s : String) (n : ℕ)
    → n ≤ 32
    → (x.subject ≡ s → ltb n 32 ≡ true)
    → n + one_when (x.subject == s) ≤ 32
one_more x s n h room = elim (Bool-cases (x.subject == s)) [
  | inl e ↦ let less = room ((eq_iff x.subject s).0 e) in rw e (ground arith)
  | inr e ↦ rw e (omega arith)
]

pub added-AreSessions :
    (x : Session) (ss : List Session)
    → find session_hash x.token_hash ss ≡ none
    → ltb (sessions_of x.subject ss) 32 ≡ true
    → AreSessions ss
    → AreSessions (ss ++ x ∷ [])
added-AreSessions x ss free room a = record {
  unique = append-IsKeyed session_hash ss x free a.unique;
  room = λ s. omega (
    arith,
    total-append (λ (y : Session). one_when (y.subject == s)) ss (x ∷ []),
    one_more x s (sessions_of s ss) (a.room s) (λ e. rw e at room),
  );
}

pub same_keys :
    (id : String) (f : Device → Device) (ds : List Device)
    → ((d : Device) → device_id (f d) ≡ device_id d)
    → ((d : Device) → device_hash (f d) ≡ device_hash d)
    → IsUnique ds
    → IsUnique (update device_id id f ds)
same_keys id f ds name hash u =
    (update-IsKeyed device_id id f ds (λ d _. name d) u.0, kept-IsKeyed id f hash ds u.1)

pub close-same :
    (s : String) (d : Device)
    → (device_id (close_device s d) ≡ device_id d)
      × (device_hash (close_device s d) ≡ device_hash d)
close-same s d = elim (Bool-cases (d.owner_subject == some s)) [
  | inl e ↦ rw e (refl, refl)
  | inr e ↦ rw e (refl, refl)
]

pub closed-IsUnique :
    (s : String) (ds : List Device) → IsUnique ds → IsUnique (map (close_device s) ds)
closed-IsUnique s ds u = (
  map-IsKeyed device_id (close_device s) ds (λ d. (close-same s d).0) u.0,
  map-IsKeyed device_hash (close_device s) ds (λ d. (close-same s d).1) u.1,
)

pub Connects-IsUnique :
    (p : Principal) (ds es : List Device) (f : Flow)
    → Connects p ds es f
    → IsUnique ds
    → IsUnique es
Connects-IsUnique p ds es f (registers d _ _ _ _ name hash e) u = rw e (
  append-IsKeyed device_id ds d name u.0,
  append-IsKeyed device_hash ds d (sym (first_where-find d.token_hash ds) ∙ hash) u.1,
)
Connects-IsUnique p ds es f (claims id _ _ e) u = rw e (same_keys id _ ds (λ d. refl) (λ d. refl) u)
