-- ===== src/Hub/Uploads/Lists.antt =====
-- `uploads`, `pending_upload` and `upload_counts` of stpd/hub/database.py: what is read of the queue.
use sts2_the_perfect_defect.Prelude.{
  ℕ, zero, suc, String, Bool, true, false, ◌&&◌, ◌||◌, Option, none, some, List, [], ◌∷◌, leb,
  total, ◌==◌, nat_eq, string_eq, if◌then◌else◌,
}
use sts2_the_perfect_defect.Prelude.Result.{Result, ok, err, ◌>>=◌, ◌>>◌, guard, match_option}
use sts2_the_perfect_defect.Boundary.Json.{Json, num}
use sts2_the_perfect_defect.Hub.Schema.{
  Instant, finite, Upload, UploadStatus, awaiting_upload, verification_pending, verified,
  quarantined, transfer_failed, upload_status_eq,
}
use sts2_the_perfect_defect.Hub.Jobs.{Tx, hub}
use sts2_the_perfect_defect.Hub.Uploads.Create.{one_if}

-- The columns of a listing: without the immutable transport intent.
pub record UploadView : Type 0 where
  pub id : String
  pub device : String
  pub content_id : String
  pub status : UploadStatus
  pub receipt : Option Json
  pub retry_at : ℕ
  pub verify_attempts : ℕ
  pub last_error : Option String

abbrev pub view : Upload → UploadView
view u = record {
  id = u.id;
  device = u.device;
  content_id = u.content_id;
  status = u.status;
  receipt = u.receipt;
  retry_at = u.retry_at;
  verify_attempts = u.verify_attempts;
  last_error = u.last_error;
}

abbrev pub status_name : UploadStatus → String
status_name awaiting_upload = "awaiting_upload"
status_name verification_pending = "verification_pending"
status_name verified = "verified"
status_name quarantined = "quarantined"
status_name transfer_failed = "transfer_failed"

abbrev is_name_of : String → UploadStatus → Bool
is_name_of name s = status_name s == name

-- A number within bounds: `type(n) is not int or not low <= n <= high` is refused.
unfoldable pub bounded : ℕ → Option ℕ → Json → Result ℕ
bounded low none (num n) = if leb low n then ok n else err (hub "invalid_upload_pagination")
bounded low (some high) (num n) =
    if leb low n && leb n high then ok n else err (hub "invalid_upload_pagination")
bounded low high _ = err (hub "invalid_upload_pagination")

unfoldable pub is_allowed : List String → Bool
is_allowed [] = true
is_allowed (s ∷ ss) =
    let rest = is_allowed ss in
    (is_name_of s awaiting_upload
      || (is_name_of s verification_pending
          || (is_name_of s verified || (is_name_of s quarantined || is_name_of s transfer_failed))))
    && rest

abbrev pub has_status : UploadStatus → List String → Bool
has_status s [] = false
has_status s (x ∷ xs) = is_name_of x s || has_status s xs

-- `WHERE device=? AND status IN (...)`, each part where it was asked for
abbrev pub matches_device : Option String → Upload → Bool
matches_device none u = true
matches_device (some d) u = u.device == d

abbrev pub matches : Option String → Option (List String) → Upload → Bool
matches device none u = matches_device device u
matches device (some names) u = matches_device device u && has_status u.status names

abbrev pub keep_if : Bool → UploadView → List UploadView → List UploadView
keep_if true v vs = v ∷ vs
keep_if false v vs = vs

-- `ORDER BY rowid DESC`: the rows that were inserted last come first.
unfoldable pub newest_first : (Upload → Bool) → List Upload → List UploadView → List UploadView
newest_first test [] later = later
newest_first test (u ∷ t) later = newest_first test t (keep_if (test u) (view u) later)

-- `LIMIT ? OFFSET ?`
unfoldable pub page : {A : Type 0} → ℕ → ℕ → List A → List A
page limit offset [] = []
page zero zero (x ∷ xs) = []
page (suc n) zero (x ∷ xs) = x ∷ page n zero xs
page limit (suc k) (x ∷ xs) = page limit k xs

-- `statuses` is a tuple of strings where it is given.
unfoldable pub uploads : Option String → Json → Json → Option (List String) → Tx (List UploadView)
unfolding page newest_first
uploads device limit offset statuses db = do
  n ← bounded 1 (some 1000) limit
  k ← bounded 0 none offset
  match_option statuses (ok (page n k (newest_first (matches device none) db.uploads []), db))
      (λ names. do
        guard (is_allowed names) (hub "invalid_upload_status_filter")
        ok (page n k (newest_first (matches device (some names)) db.uploads []), db))

-- `WHERE status='verification_pending' AND retry_at<=?`
abbrev pub is_due : ℕ → Upload → Bool
is_due now u = u.status == verification_pending && leb u.retry_at now

-- The earlier of a row and the best of the rows after it; the row itself where they are equal.
abbrev pub earlier : Upload → Option Upload → Upload
earlier u none = u
earlier u (some v) = if leb u.retry_at v.retry_at then u else v

-- `ORDER BY retry_at,rowid LIMIT 1`
unfoldable pub earliest : (Upload → Bool) → List Upload → Option Upload
earliest test [] = none
earliest test (u ∷ t) = let rest = earliest test t in if test u then some (earlier u rest) else rest

abbrev viewed : Option Upload → Option UploadView
viewed none = none
viewed (some u) = some (view u)

unfoldable pub pending_upload : Instant → Tx (Option UploadView)
pending_upload now db = do
  t ← finite now (hub "invalid_verification_time")
  ok (viewed (earliest (is_due t) db.uploads), db)

abbrev pub count_of : Option String → UploadStatus → List Upload → ℕ
count_of device s t = total (λ u. one_if (matches_device device u && u.status == s)) t

-- `GROUP BY status`: a group that has no row is not there.
abbrev pub group :
    Option String → UploadStatus → List Upload → List (String × ℕ) → List (String × ℕ)
group device s t more =
    if count_of device s t == 0 then more else (status_name s, count_of device s t) ∷ more

unfoldable pub upload_counts : Option String → Tx (List (String × ℕ))
upload_counts device db =
    let t = db.uploads in
    ok (
      group device awaiting_upload t (
          group device quarantined t (
            group device transfer_failed t
              (group device verification_pending t (group device verified t [])))),
      db,
    )
