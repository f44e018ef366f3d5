-- ===== src/Hub/Uploads/Verify.antt =====
-- `request_verification`, `verification_failure`, `retry_upload` and `finish_upload` of
-- stpd/hub/database.py.
use sts2_the_perfect_defect.Prelude.{
  ℕ, ◌+◌, ◌^◌, min, String, ◌&&◌, ◌||◌, none, some, leb, ◌==◌, string_eq, option_eq, if◌then◌else◌,
}
use sts2_the_perfect_defect.Prelude.Result.{
  Result, ok, err, type_error, ◌>>=◌, ◌>>◌, guard, expect, match_option, branch,
}
use sts2_the_perfect_defect.Prelude.Table.{find, update}
use sts2_the_perfect_defect.Boundary.Json.{Json, str, arr, obj, json_eq}
use sts2_the_perfect_defect.Hub.Schema.{
  seconds, Db, Upload, UploadStatus, upload_id, awaiting_upload, verification_pending, verified,
  quarantined, transfer_failed, upload_status_eq, log_event,
}
use sts2_the_perfect_defect.Hub.Jobs.{Tx, hub, get}

-- `UPDATE uploads SET ... WHERE id=?`
abbrev pub set_upload : String → (Upload → Upload) → Db → Db
set_upload id f db = record db { uploads = update upload_id id f db.uploads }

abbrev pub requested_row : Upload → Upload
requested_row u = record u { status = verification_pending }

unfoldable pub request_verification : String → Tx (Unit {0})
request_verification id db = match_option (find upload_id id db.uploads) (ok (tt, db)) λ row.
    branch (row.status == awaiting_upload)
      (ok (
        tt,
        log_event "receiver" "upload_verification_requested" id (set_upload id requested_row db),
      ))
      (ok (tt, db))

-- The row after one more failed attempt: 2 ** attempts seconds are waited, 300 at most, and the
-- fifth failure is the last.
abbrev pub failed_row : String → ℕ → ℕ → Upload → Upload
failed_row code now attempts u = record u {
  verify_attempts = attempts;
  retry_at = now + seconds (min 300 (2 ^ attempts));
  last_error = some code;
  status = if leb 5 attempts then transfer_failed else verification_pending;
}

unfoldable pub verification_failure : String → String → ℕ → Tx (Unit {0})
verification_failure id code now db =
    match_option (find upload_id id db.uploads) (ok (tt, db)) λ row.
      branch (row.status == verification_pending)
        (ok (
          tt,
          log_event "receiver" "verification_retry" id
              (set_upload id (failed_row code now (row.verify_attempts + 1)) db),
        ))
        (ok (tt, db))

abbrev pub retried_row : Upload → Upload
retried_row u = record u {
  status = awaiting_upload;
  verify_attempts = 0;
  retry_at = 0;
  last_error = none;
}

unfoldable pub retry_upload : String → Tx (Unit {0})
retry_upload id db = do
  row ← expect (find upload_id id db.uploads) (hub "upload_retry_not_applicable")
  guard (row.status == transfer_failed) (hub "upload_retry_not_applicable")
  ok (tt, log_event "admin" "upload_retry_authorized" id (set_upload id retried_row db))

-- `receipt.get("status")`, which is refused unless it is one of the two dispositions;
-- a list or a dict is no member of a set
unfoldable pub disposition : Json → Result UploadStatus
disposition (str s) =
    if s == "verified"
    then ok verified
    else if s == "quarantined"
    then ok quarantined
    else err (hub "invalid_receive_disposition")
disposition (arr a) = err type_error
disposition (obj o) = err type_error
disposition _ = err (hub "invalid_receive_disposition")

abbrev pub finished_row : UploadStatus → Json → Upload → Upload
finished_row status receipt u = record u { status = status; receipt = some receipt }

-- `receipt` is a dict: anything else has no `get`.
unfoldable pub finish_upload : String → Json → Tx (Unit {0})
finish_upload id receipt db = do
  status ← get receipt "status" >>= disposition
  content_id ← get receipt "content_id"
  manifest_sha ← get receipt "manifest_sha256"
  row ← expect (find upload_id id db.uploads) (hub "receipt_identity_mismatch")
  guard (content_id == str row.content_id && manifest_sha == str row.manifest_sha)
      (hub "receipt_identity_mismatch")
  guard (row.receipt == none || row.receipt == some receipt) (hub "receipt_conflict")
  ok (tt, log_event "verifier" "upload_receipt" id (set_upload id (finished_row status receipt) db))
