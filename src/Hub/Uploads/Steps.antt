-- ===== src/Hub/Uploads/Steps.antt =====
-- What one upload operation may do to a row, and the invariant of the rows.
use sts2_the_perfect_defect.Prelude.{
  ℕ, ◌+◌, ◌≡◌, sym, ◌⊎◌, refl, String, Bool, true, false, ◌&&◌, ◌||◌, Option, none, some, arith,
  ◌==◌, string_eq, option_eq, leb, not, ◌∙◌, nat_eq, option_beq_iff,
}
use sts2_the_perfect_defect.Prelude.Result.{ok, ◌>>=◌, >>=-eq-ok, ok-injective}
use sts2_the_perfect_defect.Boundary.Json.{
  Json, null, flag, num, other_number, str, arr, obj, json_eq,
}
use sts2_the_perfect_defect.Hub.Schema.{
  Upload, UploadStatus, awaiting_upload, verification_pending, verified, quarantined,
  transfer_failed, upload_status_eq,
}
use sts2_the_perfect_defect.Hub.Jobs.{get}
use sts2_the_perfect_defect.Hub.Uploads.Verify.{
  failed_row, disposition, requested_row, retried_row, finished_row,
}

-- How many attempts a row may have made, and whether it has a receipt, in each state.
abbrev pub is_consistent : UploadStatus → ℕ → Bool → Bool
is_consistent awaiting_upload n received = n == 0 && not received
is_consistent verification_pending n received = leb n 4 && not received
is_consistent transfer_failed n received = n == 5 && not received
is_consistent verified n received = leb n 5 && received
is_consistent quarantined n received = leb n 5 && received

abbrev pub is_received : Upload → Bool
is_received u = elim u.receipt [ none ↦ false | some r ↦ true ]

-- A receipt says of itself which disposition it has.
abbrev pub Attests : Option Json → UploadStatus → Type 0
Attests none s = Unit
Attests (some r) s = (get r "status" >>= disposition) ≡ ok s

pub record IsConsistent (u : Upload) : Type 0 where
  pub counted : is_consistent u.status u.verify_attempts (is_received u) ≡ true
  pub attested : Attests u.receipt u.status

-- The columns that are never written again; and from a consistent row, a consistent row, where a
-- receipt and its disposition stay.
pub record UploadStep (u v : Upload) : Type 0 where
  pub id : v.id ≡ u.id
  pub device : v.device ≡ u.device
  pub content_id : v.content_id ≡ u.content_id
  pub manifest_sha : v.manifest_sha ≡ u.manifest_sha
  pub intent : v.intent ≡ u.intent
  pub consistent : IsConsistent u → IsConsistent v
  pub settled :
      IsConsistent u → is_received u ≡ true → (v.receipt ≡ u.receipt) × (v.status ≡ u.status)

pub UploadStep-refl : (u : Upload) → UploadStep u u
UploadStep-refl u = record {
  id = refl;
  device = refl;
  content_id = refl;
  manifest_sha = refl;
  intent = refl;
  consistent = λ h. h;
  settled = λ h r. (refl, refl);
}

received_after :
    (u v : Upload) → v.receipt ≡ u.receipt → is_received u ≡ true → is_received v ≡ true
received_after u v e h = ground arith

pub UploadStep-trans : (u v w : Upload) → UploadStep u v → UploadStep v w → UploadStep u w
UploadStep-trans u v w p q = record {
  id = q.id ∙ p.id;
  device = q.device ∙ p.device;
  content_id = q.content_id ∙ p.content_id;
  manifest_sha = q.manifest_sha ∙ p.manifest_sha;
  intent = q.intent ∙ p.intent;
  consistent = λ h. q.consistent (p.consistent h);
  settled = λ h r.
      let (e, s) = p.settled h r in
      let (e', s') = q.settled (p.consistent h) (received_after u v e r) in (e' ∙ e, s' ∙ s);
}

-- A step of a row that has no receipt, to one that has none.
open_step :
    (u v : Upload)
    → (v.id ≡ u.id) × (v.device ≡ u.device) × (v.content_id ≡ u.content_id)
    → (v.manifest_sha ≡ u.manifest_sha) × (v.intent ≡ u.intent)
    → v.receipt ≡ u.receipt
    → (IsConsistent u
        → (is_received u ≡ false)
          × (is_consistent v.status v.verify_attempts (is_received v) ≡ true))
    → UploadStep u v
open_step u v (id, device, content_id) (sha, intent) receipt step = record {
  id = id;
  device = device;
  content_id = content_id;
  manifest_sha = sha;
  intent = intent;
  consistent = λ h. record {
    counted = (step h).1;
    attested = let empty : v.receipt ≡ none = ground (arith, (step h).0) in rw empty tt;
  };
  settled = λ h r. absurd (cc ((step h).0, r));
}

pub request_step :
    (r row : Upload)
    → row ≡ r
    → (row.status == awaiting_upload) ≡ true
    → UploadStep r (requested_row r)
request_step r row e s =
    open_step r (requested_row r) (refl, refl, refl) (refl, refl) refl
      λ h. ground (arith, h.counted)

pub failure_step :
    (r row : Upload) (code : String) (now : ℕ)
    → row ≡ r
    → (row.status == verification_pending) ≡ true
    → UploadStep r (failed_row code now (row.verify_attempts + 1) r)
failure_step r row code now e s =
    open_step r (failed_row code now (row.verify_attempts + 1) r) (refl, refl, refl) (refl, refl)
      refl λ h. ground (arith, h.counted)

pub retry_step :
    (r row : Upload)
    → row ≡ r
    → (row.status == transfer_failed) ≡ true
    → UploadStep r (retried_row r)
retry_step r row e s =
    open_step r (retried_row r) (refl, refl, refl) (refl, refl) refl λ h. ground (arith, h.counted)

disposition_cases :
    (j : Json) (s : UploadStatus) → disposition j ≡ ok s → (s ≡ verified) ⊎ (s ≡ quarantined)
unfolding disposition
disposition_cases (str t) s h = ground arith
disposition_cases null s h = ground arith
disposition_cases (flag b) s h = ground arith
disposition_cases (num n) s h = ground arith
disposition_cases (other_number n) s h = ground arith
disposition_cases (arr a) s h = ground arith
disposition_cases (obj o) s h = ground arith

attested_cases :
    (receipt : Json) (s : UploadStatus)
    → (get receipt "status" >>= disposition) ≡ ok s
    → (s ≡ verified) ⊎ (s ≡ quarantined)
attested_cases receipt s h =
    let (j, found, e) = >>=-eq-ok (get receipt "status") disposition h in disposition_cases j s e

settled_count :
    (s t : UploadStatus) (n : ℕ) (received : Bool)
    → is_consistent t n received ≡ true
    → (s ≡ verified) ⊎ (s ≡ quarantined)
    → is_consistent s n true ≡ true
settled_count s t n received h e = ground (arith, h)

same_receipt :
    (o : Option Json) (receipt : Json)
    → (o == none || o == some receipt) ≡ true
    → elim o [ none ↦ false | some r ↦ true ] ≡ true
    → o ≡ some receipt
same_receipt none receipt same h = absurd (cc h)
same_receipt (some r) receipt same h = (option_beq_iff (some r) (some receipt)).0 same

Attests-unique :
    (o : Option Json) (receipt : Json) (s t : UploadStatus)
    → Attests o s
    → o ≡ some receipt
    → (get receipt "status" >>= disposition) ≡ ok t
    → t ≡ s
Attests-unique none receipt s t h e a = absurd (cc e)
Attests-unique (some r) receipt s t h e a =
    let same : r ≡ receipt = cc e in ok-injective (sym a ∙ (rw same at h))

pub finish_step :
    (r row : Upload) (status : UploadStatus) (receipt : Json)
    → row ≡ r
    → (get receipt "status" >>= disposition) ≡ ok status
    → (row.receipt == none || row.receipt == some receipt) ≡ true
    → UploadStep r (finished_row status receipt r)
finish_step r row status receipt e attested same = record {
  id = refl;
  device = refl;
  content_id = refl;
  manifest_sha = refl;
  intent = refl;
  consistent = λ h. record {
    counted =
        settled_count status r.status r.verify_attempts (is_received r) h.counted
          (attested_cases receipt status attested);
    attested = attested;
  };
  settled = λ h p.
      let held = same_receipt r.receipt receipt (rw e at same) p in
      (sym held, Attests-unique r.receipt receipt r.status status h.attested held attested);
}
