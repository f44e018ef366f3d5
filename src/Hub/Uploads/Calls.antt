-- ===== src/Hub/Uploads/Calls.antt =====
-- One call of `Operations` on the uploads, and what it leaves in the database.
use sts2_the_perfect_defect.Prelude.{ℕ, String, List, [], ◌∷◌}
use sts2_the_perfect_defect.Boundary.Json.{Json}
use sts2_the_perfect_defect.Hub.Schema.{Db}
use sts2_the_perfect_defect.Hub.Calls.{committed}
use sts2_the_perfect_defect.Hub.Uploads.Create.{create_upload}
use sts2_the_perfect_defect.Hub.Uploads.Verify.{
  request_verification, verification_failure, retry_upload, finish_upload,
}

-- A constructor for each operation that changes an upload.
pub data UploadCall : Type 0 where
  creating : String → String → String → Json → String → UploadCall
  requesting : String → UploadCall
  failing : String → String → ℕ → UploadCall
  retrying : String → UploadCall
  finishing : String → Json → UploadCall

unfoldable pub transfer : UploadCall → Db → Db
transfer (creating device content_id manifest_sha intent fresh) db =
    committed (create_upload device content_id manifest_sha intent fresh db) db
transfer (requesting id) db = committed (request_verification id db) db
transfer (failing id code now) db = committed (verification_failure id code now db) db
transfer (retrying id) db = committed (retry_upload id db) db
transfer (finishing id receipt) db = committed (finish_upload id receipt db) db

unfoldable pub transfer_all : List UploadCall → Db → Db
transfer_all [] db = db
transfer_all (c ∷ cs) db = transfer_all cs (transfer c db)
