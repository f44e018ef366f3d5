-- ===== src/Hub/Uploads/Queue.antt =====
-- What the verification queue serves first, and how long it retries.
use sts2_the_perfect_defect.Prelude.{
  ◌↔◌, ℕ, ◌+◌, ◌≤◌, ◌≡◌, inl, inr, refl, String, Bool, true, false, Option, none, some, List, [],
  ◌∷◌, ◌++◌, arith, All, string_eq, if◌then◌else◌, leb, ap, length, ◌<◌, All-append, Bool-cases,
}
use sts2_the_perfect_defect.Prelude.Result.{ok, ◌>>=◌}
use sts2_the_perfect_defect.Prelude.Table.{find, find-update_self}
use sts2_the_perfect_defect.Hub.Schema.{
  at, Db, Upload, upload_id, verification_pending, transfer_failed, upload_status_eq,
  upload_status_beq_iff, log_event,
}
use sts2_the_perfect_defect.Hub.Calls.{committed}
use sts2_the_perfect_defect.Hub.Uploads.Verify.{verification_failure, failed_row}
use sts2_the_perfect_defect.Hub.Uploads.Lists.{
  earliest, earlier, is_due, pending_upload, view, UploadView,
}

-- An upload whose verification is pending and has come to its time
abbrev pub IsDue : ℕ → Upload → Type 0
IsDue now u = (u.status ≡ verification_pending) × (u.retry_at ≤ now)

is_due-IsDue : (now : ℕ) (u : Upload) → (is_due now u ≡ true) ↔ IsDue now u
is_due-IsDue now u = ground (arith, upload_status_beq_iff u.status verification_pending)

-- No row that passes is tried before `u`.
abbrev pub IsFirst : (Upload → Type 0) → Upload → List Upload → Type 0
IsFirst P u t = All (λ v. P v → u.retry_at ≤ v.retry_at) t

-- Each row that passes is tried after `u`.
abbrev pub IsAhead : (Upload → Type 0) → Upload → List Upload → Type 0
IsAhead P u t = All (λ v. P v → u.retry_at < v.retry_at) t

-- A row of the table that passes, ahead of those that were inserted earlier, and no later than
-- those that were inserted after it
pub record Stands (P : Upload → Type 0) (u : Upload) (t : List Upload) : Type 0 where
  pub older : List Upload
  pub newer : List Upload
  pub rows : t ≡ older ++ u ∷ newer
  pub passes : P u
  pub ahead : IsAhead P u older
  pub first : IsFirst P u newer

abbrev pub NoneAre : (Upload → Type 0) → List Upload → Type 0
NoneAre P t = All (λ u. ¬ (P u)) t

weaken-IsFirst :
    (P : Upload → Type 0) (u v : Upload) (t : List Upload)
    → u.retry_at ≤ v.retry_at
    → IsFirst P v t
    → IsFirst P u t
weaken-IsFirst P u v [] le h = tt
weaken-IsFirst P u v (x ∷ t) le h =
    (λ due. let first = h.0 due in omega arith, weaken-IsFirst P u v t le h.1)

ahead-IsFirst : (P : Upload → Type 0) (u : Upload) (t : List Upload) → IsAhead P u t → IsFirst P u t
ahead-IsFirst P u [] h = tt
ahead-IsFirst P u (x ∷ t) h = (λ due. let first = h.0 due in omega arith, ahead-IsFirst P u t h.1)

none-IsFirst : (P : Upload → Type 0) (u : Upload) (t : List Upload) → NoneAre P t → IsFirst P u t
none-IsFirst P u [] h = tt
none-IsFirst P u (x ∷ t) h = (λ due. absurd (h.0 due), none-IsFirst P u t h.1)

Stands-IsFirst : (P : Upload → Type 0) (v : Upload) (t : List Upload) → Stands P v t → IsFirst P v t
Stands-IsFirst P v t h = rw h.rows (
    All-append _ h.older (v ∷ h.newer) (ahead-IsFirst P v h.older h.ahead)
      ((λ _. omega arith), h.first))

-- At the front of the table
front :
    (P : Upload → Type 0) (x : Upload) (t : List Upload) → P x → IsFirst P x t → Stands P x (x ∷ t)
front P x t due h = record {
  older = [];
  newer = t;
  rows = refl;
  passes = due;
  ahead = tt;
  first = h;
}

-- A row that is tried later than `v` where it passes changes nothing in front of it.
behind :
    (P : Upload → Type 0) (x v : Upload) (t : List Upload)
    → (P x → v.retry_at < x.retry_at)
    → Stands P v t
    → Stands P v (x ∷ t)
behind P x v t later h = record {
  older = x ∷ h.older;
  newer = h.newer;
  rows = ap (λ r. x ∷ r) h.rows;
  passes = h.passes;
  ahead = (later, h.ahead);
  first = h.first;
}

chosen-Stands :
    (P : Upload → Type 0) (x v : Upload) (t : List Upload) (b : Bool)
    → leb x.retry_at v.retry_at ≡ b
    → P x
    → Stands P v t
    → Stands P (if b then x else v) (x ∷ t)
chosen-Stands P x v t true e due h =
    front P x t due (weaken-IsFirst P x v t (ground arith) (Stands-IsFirst P v t h))
chosen-Stands P x v t false e due h = behind P x v t (λ _. ground arith) h

abbrev Serves : (Upload → Type 0) → List Upload → Option Upload → Type 0
Serves P t none = NoneAre P t
Serves P t (some u) = Stands P u t

earlier-Serves :
    (P : Upload → Type 0) (x : Upload) (t : List Upload) (o : Option Upload)
    → P x
    → Serves P t o
    → Serves P (x ∷ t) (some (earlier x o))
earlier-Serves P x t none due h = front P x t due (none-IsFirst P x t h)
earlier-Serves P x t (some v) due h = chosen-Stands P x v t (leb x.retry_at v.retry_at) refl due h

later-Serves :
    (P : Upload → Type 0) (x : Upload) (t : List Upload) (o : Option Upload)
    → ¬ (P x)
    → Serves P t o
    → Serves P (x ∷ t) o
later-Serves P x t none other h = (other, h)
later-Serves P x t (some v) other h = behind P x v t (λ due. absurd (other due)) h

earliest-Serves : (now : ℕ) (t : List Upload) → Serves (IsDue now) t (earliest (is_due now) t)
unfolding earliest
earliest-Serves now [] = tt
earliest-Serves now (x ∷ t) =
    let rest = earliest-Serves now t in
    let best = earliest (is_due now) t in
    elim (Bool-cases (is_due now x)) [
      | inl e ↦ rw e (earlier-Serves (IsDue now) x t best ((is_due-IsDue now x).0 e) rest)
      | inr e ↦
          rw e (later-Serves (IsDue now) x t best (λ due. cc ((is_due-IsDue now x).1 due, e)) rest)
    ]

abbrev pub Answer : ℕ → List Upload → Option UploadView → Type 0
Answer now t none = NoneAre (IsDue now) t
Answer now t (some v) = (u : Upload) × (v ≡ view u) × Stands (IsDue now) u t

Answer-of :
    (now : ℕ) (t : List Upload) (o : Option Upload)
    → Serves (IsDue now) t o
    → Answer now t (elim o [ none ↦ none | some u ↦ some (view u) ])
Answer-of now t none h = h
Answer-of now t (some u) h = (u, refl, h)

-- A look at the queue always answers and changes nothing: with a stored upload that is pending and
-- due, earlier than the due ones that were inserted before it and no later than those that were
-- inserted after it; or with none, and then none is due.
pub pending_upload-first :
    (now : ℕ) (db : Db)
    → (o : Option UploadView) × (pending_upload (at now) db ≡ ok (o, db)) × Answer now db.uploads o
unfolding pending_upload ◌>>=◌
pending_upload-first now db = (
  _,
  refl,
  Answer-of now db.uploads (earliest (is_due now) db.uploads) (earliest-Serves now db.uploads),
)

-- The failures of one upload, one after the other.
unfoldable pub fail_all : String → List (String × ℕ) → Db → Db
fail_all id [] db = db
fail_all id ((code, now) ∷ fs) db =
    fail_all id fs (committed (verification_failure id code now db) db)

fail_once :
    (id code : String) (now : ℕ) (db : Db) (u : Upload)
    → find upload_id id db.uploads ≡ some u
    → u.status ≡ verification_pending
    → find upload_id id (committed (verification_failure id code now db) db).uploads
      ≡ some (failed_row code now (u.verify_attempts + 1) u)
unfolding verification_failure ◌>>=◌ log_event
fail_once id code now db u found pending = ground (
  arith,
  find-update_self upload_id id (failed_row code now (u.verify_attempts + 1)) db.uploads u
      (λ r. refl) found,
)

abbrev pub HasFailed : ℕ → Option Upload → Type 0
HasFailed n o =
    (v : Upload) × (o ≡ some v)
    × (v.verify_attempts ≡ n)
    × (v.status ≡ (if leb 5 n then transfer_failed else verification_pending))

-- An upload that is pending with fewer than five failed attempts is pending again after each
-- further failure up to the fourth in all, and given up at the fifth.
pub gives_up :
    (id : String) (fs : List (String × ℕ)) (db : Db) (u : Upload)
    → find upload_id id db.uploads ≡ some u
    → u.status ≡ verification_pending
    → u.verify_attempts ≤ 4
    → u.verify_attempts + length fs ≤ 5
    → HasFailed (u.verify_attempts + length fs) (find upload_id id (fail_all id fs db).uploads)
unfolding fail_all
gives_up id [] db u found pending few within = (u, found, omega arith, ground arith)
gives_up id ((code, now) ∷ []) db u found pending few within =
    (_, fail_once id code now db u found pending, omega arith, ground arith)
gives_up id ((code, now) ∷ f ∷ fs) db u found pending few within =
    let v = failed_row code now (u.verify_attempts + 1) u in
    let db' = committed (verification_failure id code now db) db in
    let (w, found', count, status) =
      gives_up id (f ∷ fs) db' v (fail_once id code now db u found pending) (ground arith)
        (omega arith) (omega arith) in
    (w, found', omega arith, ground arith)
