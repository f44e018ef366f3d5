-- ===== src/Hub/Identity/HandOut.antt =====
-- To whom the credentials of a connection are handed out, and how long a session works.
use sts2_the_perfect_defect.Prelude.{
  ℕ, ◌<◌, ◌≡◌, refl, ap, String, Bool, true, some, [], ◌∷◌, arith, string_eq, eq_iff,
}
use sts2_the_perfect_defect.Prelude.Result.{
  ok, Ensures, Ensures-ok, Ensures-err, Ensures-guard, Ensures-branch, Ensures-bind, Ensures-match,
  Ensures-expect,
}
use sts2_the_perfect_defect.Prelude.Table.{find, first_where}
use sts2_the_perfect_defect.Prelude.Keyed.{first_where-test}
use sts2_the_perfect_defect.Boundary.Json.{Json, Fields}
use sts2_the_perfect_defect.Contracts.Runtime.{Runtime}
use sts2_the_perfect_defect.Hub.Members.{Roll, Principal, Flow, Session, User, lookup}
use sts2_the_perfect_defect.Hub.Members.Grants.{Grants, authorize-Grants}
use sts2_the_perfect_defect.Hub.Identity.{
  Service, flow_id, fields, client_hash, key_id, flow_token, poll, poll_flow, look_at, answer_of,
  Look, status, granted, Answer, said, approved_as, personal, is_current, is_user,
  verified_identity,
}

-- A session that has not run out, of a user whom an active member row stands for
pub record IsSession (svc : Service) (rt : Runtime) (token : String) (now : ℕ) (q : Principal)
    (r : Roll) : Type 0 where
  pub session : Session
  pub hash : session.token_hash ≡ rt.sha256 token
  pub lasts : now < session.expires_at
  pub user : User
  pub of_user : first_where (is_user session.subject) r.users ≡ some user
  pub who : Principal
  pub verified : verified_identity svc rt user.issuer user.access_subject user.email ≡ ok who
  pub grants : Grants (record who { expires_at = session.expires_at }) q r

is_current-parts :
    (hash : String) (now : ℕ) (s : Session)
    → is_current hash now s ≡ true
    → (s.token_hash ≡ hash) × (now < s.expires_at)
is_current-parts hash now s h = ground (arith, eq_iff s.token_hash hash)

module _ (svc : Service) (rt : Runtime) where
  personal-IsSession :
      (token : String) (now : ℕ) (r : Roll)
      → Ensures
          (λ (a : Principal × Roll). IsSession svc rt token now a.0 r × (a.1 ≡ r))
          (personal svc rt token now r)
  unfolding personal
  personal-IsSession token now r = Ensures-guard _ _ _ λ _. Ensures-guard _ _ _ λ _.
      Ensures-expect _ _ _ λ s found. Ensures-expect _ _ _ λ u who. Ensures-bind _ _ λ p verified.
        record {
          holds = λ a e.
              let p' = record p { expires_at = s.expires_at } in
              let (g, same) = authorize-Grants rt p' a.0 r a.1 e in
              let (hash, lasts) =
                is_current-parts (rt.sha256 token) now s
                  (first_where-test (is_current (rt.sha256 token) now) r.sessions s found) in
              (
                record {
                  session = s;
                  hash = hash;
                  lasts = lasts;
                  user = u;
                  of_user = who;
                  who = p;
                  verified = verified;
                  grants = g;
                },
                same,
              );
        }

  -- What a poll looks at before it hands anything out
  pub record IsReady (id : String) (value : Json) (now : ℕ) (r : Roll) (row : Flow) : Type 0 where
    pub found : find flow_id id r.flows ≡ some row
    pub asked :
        (fs : Fields) × (fields ("client_secret" ∷ []) [] value ≡ ok fs)
        × (client_hash rt (lookup "client_secret" fs) ≡ ok row.client_hash)
    pub in_time : now < row.expires_at
    pub approved : row.status ≡ "approved"
    pub key : row.key_id ≡ key_id svc

  abbrev Ready : String → Json → ℕ → Roll → Look × Roll → Type 0
  Ready id value now r (status s, r') = Unit
  Ready id value now r (granted row secret, r') = IsReady id value now r row × (r' ≡ r)

  abbrev LooksReady : Flow → String → ℕ → Roll → Look × Roll → Type 0
  LooksReady row proof now r (status s, r') = Unit
  LooksReady row proof now r (granted row' secret, r') =
      (row' ≡ row)
      × (r' ≡ r)
      × (row.client_hash ≡ proof)
      × (now < row.expires_at)
      × (row.status ≡ "approved")
      × (row.key_id ≡ key_id svc)

  ready_row :
      (row : Flow) (proof : String) (ack : Bool) (now : ℕ) (r : Roll)
      → Ensures (LooksReady row proof now r) (look_at svc rt row proof ack now r)
  unfolding look_at
  ready_row row proof ack now r = Ensures-guard _ _ _ λ own.
      Ensures-branch _ _ _ (λ _. Ensures-ok _ tt)
        λ live.
          Ensures-branch _ _ _ (λ _. Ensures-ok _ tt)
            λ _.
              Ensures-branch _ _ _ (λ _. Ensures-ok _ tt)
                λ _. Ensures-guard _ _ _ λ key.
                  Ensures-branch _ _ _
                    (λ _. Ensures-branch _ _ _ (λ _. Ensures-err _) (λ _. Ensures-ok _ tt))
                    (λ is_approved.
                      Ensures-branch _ _ _ (λ _. Ensures-ok _ tt)
                        (λ _. Ensures-bind _ _ λ secret _. Ensures-ok _ (
                          refl,
                          refl,
                          (eq_iff row.client_hash proof).0 own,
                          ground arith,
                          (eq_iff row.status "approved").0 (ground arith),
                          (eq_iff row.key_id (key_id svc)).0 key,
                        )))

  shown_row :
      (id : String) (value : Json) (now : ℕ) (r : Roll) (row : Flow) (fs : Fields) (proof : String)
      (a : Look × Roll)
      → fields ("client_secret" ∷ []) [] value ≡ ok fs
      → client_hash rt (lookup "client_secret" fs) ≡ ok proof
      → find flow_id id r.flows ≡ some row
      → LooksReady row proof now r a
      → Ready id value now r a
  shown_row id value now r row fs proof (status s, r') shape hashed found h = tt
  shown_row id value now r row fs proof (granted row' secret, r') shape hashed found
        (same, quiet, own, time, is_approved, key) =
      (
        rw same (record {
          found = found;
          asked = (fs, shape, rw own hashed);
          in_time = time;
          approved = is_approved;
          key = key;
        }),
        quiet,
      )

  ready :
      (id : String) (value : Json) (ack : Bool) (now : ℕ) (r : Roll)
      → Ensures (Ready id value now r) (poll_flow svc rt id value ack now r)
  unfolding poll_flow
  ready id value ack now r = Ensures-bind _ _ λ fs shape. Ensures-bind _ _ λ proof hashed.
      Ensures-match _ _ _ (λ _. Ensures-ok _ tt)
        λ row found. record {
          holds = λ a e.
              shown_row id value now r row fs proof a shape hashed found
                ((ready_row row proof ack now r).holds a e);
        }

  -- The two looks behind an answer that hands credentials out
  abbrev pub IsHandedOut : String → Json → ℕ → ℕ → (Roll → Roll) → Roll → Answer → Type 0
  IsHandedOut id value now later between r (said s) = Unit
  IsHandedOut id value now later between r (approved_as g) =
      (row : Flow) × IsReady id value now r row
      × (g.session_token ≡ flow_token svc "personal" row)
      × IsSession svc rt g.session_token later g.principal (between r)

  handed :
      (id : String) (value : Json) (ack : Bool) (now later : ℕ) (between : Roll → Roll) (r : Roll)
      (look : Look) (r' : Roll)
      → Ready id value now r (look, r')
      → Ensures
          (λ (a : Answer × Roll). IsHandedOut id value now later between r a.0)
          (answer_of svc rt later look (between r'))
  unfolding answer_of
  handed id value ack now later between r (status s) r' h = Ensures-ok _ tt
  handed id value ack now later between r (granted row secret) r' (is_ready, quiet) =
      Ensures-bind _ _ λ a e.
        let (session, _) =
          (personal-IsSession (flow_token svc "personal" row) later (between r')).holds a e in
        Ensures-ok _ (row, is_ready, refl, rw (ap between quiet) at session)

  -- Credentials are handed out only to who has the secret of a connection that is approved, has not
  -- run out and was made under the service's key, and only while its session has not run out and
  -- an active member row grants its user the role, status, enrolment, quota and devices that the
  -- answer says, as the tables are after the second look.
  pub poll-IsHandedOut :
      (id : String) (value : Json) (ack : Bool) (now later : ℕ) (between : Roll → Roll)
      (r r' : Roll) (a : Answer)
      → poll svc rt id value ack now later between r ≡ ok (a, r')
      → IsHandedOut id value now later between r a
  unfolding poll
  poll-IsHandedOut id value ack now later between r r' a h =
      let all_of : Ensures (λ (a : Answer × Roll). IsHandedOut id value now later between r a.0)
          (poll svc rt id value ack now later between r) =
        Ensures-bind _ _ λ (look, r1) e.
          handed id value ack now later between r look r1
            ((ready id value ack now r).holds (look, r1) e) in
      all_of.holds (a, r') h
