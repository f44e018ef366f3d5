-- ===== src/Hub/Uploads/Create.antt =====
-- `create_upload` and `upload` of stpd/hub/database.py.
use sts2_the_perfect_defect.Prelude.{
  ℕ, String, Bool, true, ◌&&◌, ◌||◌, Option, none, some, List, [], ◌∷◌, ◌++◌, ltb, total, ◌==◌,
  string_eq, if◌then◌else◌,
}
use sts2_the_perfect_defect.Prelude.Result.{
  Result, ok, err, type_error, integrity_error, ◌>>=◌, ◌>>◌, guard, expect, match_option,
}
use sts2_the_perfect_defect.Prelude.Table.{find, first_where}
use sts2_the_perfect_defect.Boundary.Json.{Json, json_eq}
use sts2_the_perfect_defect.Hub.Schema.{
  Db, Upload, upload_id, awaiting_upload, verification_pending, verified, upload_status_eq,
  log_event,
}
use sts2_the_perfect_defect.Hub.Jobs.{Tx, hub}

-- `WHERE device=? AND content_id=?`
abbrev pub is_transfer : String → String → Upload → Bool
is_transfer device content_id u = u.device == device && u.content_id == content_id

-- `WHERE device=? AND status IN ('awaiting_upload','verification_pending')`
abbrev pub is_pending : String → Upload → Bool
is_pending device u =
    u.device == device && (u.status == awaiting_upload || u.status == verification_pending)

-- `SELECT COUNT(*)`
abbrev pub one_if : Bool → ℕ
one_if b = if b then 1 else 0

abbrev pub pending_count : String → List Upload → ℕ
pending_count device t = total (λ u. one_if (is_pending device u)) t

abbrev pub new_upload : String → String → String → String → Json → Upload
new_upload fresh device content_id manifest_sha intent = record {
  id = fresh;
  device = device;
  content_id = content_id;
  manifest_sha = manifest_sha;
  intent = intent;
  status = awaiting_upload;
  receipt = none;
  verify_attempts = 0;
  retry_at = 0;
  last_error = none;
}

-- `INSERT INTO uploads`, whose primary key is refused when it is taken
unfoldable pub insert_upload : Upload → Db → Result Db
insert_upload u db =
    match_option (find upload_id u.id db.uploads)
      (ok (record db { uploads = db.uploads ++ u ∷ [] })) (λ old. err integrity_error)

-- `fresh` is `secrets.token_hex(16)`; a row answers for the dict that is made of it.
unfoldable pub create_upload : String → String → String → Json → String → Tx Upload
create_upload device content_id manifest_sha intent fresh db =
    match_option (first_where (is_transfer device content_id) db.uploads)
      (do
        guard (ltb (pending_count device db.uploads) 16) (hub "upload_queue_limit")
        db' ← insert_upload (new_upload fresh device content_id manifest_sha intent) db
        row ← expect (find upload_id fresh db'.uploads) type_error
        ok (row, log_event device "upload_created" fresh db'))
      (λ old. do
        guard (old.manifest_sha == manifest_sha) (hub "content_manifest_conflict")
        guard (old.intent == intent || old.status == verified) (hub "upload_transport_changed")
        ok (old, db))

-- Whether a row belongs to the device that asks, if one is named.
abbrev of_device : Option String → Upload → Bool
of_device none u = true
of_device (some d) u = u.device == d

unfoldable pub upload : String → Option String → Tx Upload
upload id device db = do
  row ← expect (find upload_id id db.uploads) (hub "upload_not_found")
  guard (of_device device row) (hub "upload_not_found")
  ok (row, db)
