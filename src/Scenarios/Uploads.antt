-- ===== src/Scenarios/Uploads.antt =====
-- One upload, from its creation to its receipt.
use sts2_the_perfect_defect.Prelude.{
  ℕ, ◌+◌, ◌≤◌, ◌≡◌, ◌⊎◌, refl, String, Option, some, List, [], ◌∷◌, arith,
}
use sts2_the_perfect_defect.Prelude.Result.{ok, ◌>>=◌}
use sts2_the_perfect_defect.Prelude.Table.{find, update, first_where}
use sts2_the_perfect_defect.Boundary.Json.{Json, null, num, str, obj, field, end, json_beq}
use sts2_the_perfect_defect.Hub.Schema.{
  at, Upload, Db, upload_id, log_event, verification_pending, verified,
}
use sts2_the_perfect_defect.Hub.Jobs.{get}
use sts2_the_perfect_defect.Hub.Uploads.{
  is_allowed, create_upload, insert_upload, new_upload, pending_count, UploadCall, creating,
  requesting, finishing, transfer, transfer_all, request_verification, verification_failure,
  finish_upload, disposition, pending_upload, uploads, UploadView,
}
use sts2_the_perfect_defect.Hub.Uploads.Runs.{AreSound, transfer_all-AreSound, receipt_is_final}
use sts2_the_perfect_defect.Hub.Uploads.Creation.{create_again, create_upload-limit}
use sts2_the_perfect_defect.Hub.Uploads.Listing.{uploads-IsListed, IsListed, is_wanted}
use sts2_the_perfect_defect.Hub.Uploads.Queue.{
  pending_upload-first, Answer, gives_up, HasFailed, fail_all,
}
use sts2_the_perfect_defect.Scenarios.Data.{empty}

empty-AreSound : AreSound empty
empty-AreSound = record { keyed = tt; consistent = tt }

abbrev created : List UploadCall
created = creating "device" "content" "manifest" null "upload" ∷ []

abbrev pending : List UploadCall
pending = creating "device" "content" "manifest" null "upload" ∷ requesting "upload" ∷ []

abbrev receipt : Json
receipt = obj (
    field "content_id" (str "content")
      (field "manifest_sha256" (str "manifest") (field "status" (str "verified") end)))

abbrev finished_db : Db
finished_db = transfer_all (finishing "upload" receipt ∷ []) (transfer_all pending empty)

finished-AreSound : AreSound finished_db
finished-AreSound =
    transfer_all-AreSound (finishing "upload" receipt ∷ []) (transfer_all pending empty)
      (transfer_all-AreSound pending empty empty-AreSound)

abbrev the_upload : Db → Upload
the_upload db = elim db.uploads [ [] ↦ new_upload "" "" "" "" null | u ∷ us ↦ u ]

created_answer :
    create_upload "device" "content" "manifest" null "upload" empty
    ≡ ok (the_upload (transfer_all created empty), transfer_all created empty)
unfolding transfer_all transfer create_upload insert_upload request_verification
    verification_failure finish_upload disposition get find update first_where log_event ◌>>=◌
    json_beq
created_answer = refl

finished_found : find upload_id "upload" finished_db.uploads ≡ some (the_upload finished_db)
unfolding transfer_all transfer create_upload insert_upload request_verification
    verification_failure finish_upload disposition get find update first_where log_event ◌>>=◌
    json_beq
finished_found = refl

finished_receipt : (the_upload finished_db).receipt ≡ some receipt
unfolding transfer_all transfer create_upload insert_upload request_verification
    verification_failure finish_upload disposition get find update first_where log_event ◌>>=◌
    json_beq
finished_receipt = refl

pending_found :
    find upload_id "upload" (transfer_all pending empty).uploads
    ≡ some (the_upload (transfer_all pending empty))
unfolding transfer_all transfer create_upload insert_upload request_verification
    verification_failure finish_upload disposition get find update first_where log_event ◌>>=◌
    json_beq
pending_found = refl

pending_status : (the_upload (transfer_all pending empty)).status ≡ verification_pending
unfolding transfer_all transfer create_upload insert_upload request_verification
    verification_failure finish_upload disposition get find update first_where log_event ◌>>=◌
    json_beq
pending_status = refl

pending_none : (the_upload (transfer_all pending empty)).verify_attempts ≡ 0
unfolding transfer_all transfer create_upload insert_upload request_verification
    verification_failure finish_upload disposition get find update first_where log_event ◌>>=◌
    json_beq
pending_none = refl

abbrev failures : List (String × ℕ)
failures = ("late", 1) ∷ ("late", 2) ∷ ("late", 3) ∷ ("late", 4) ∷ ("late", 5) ∷ []

transfer_all-AreSound_example : AreSound (transfer_all pending empty)
transfer_all-AreSound_example = transfer_all-AreSound pending empty empty-AreSound

receipt_is_final_example :
    (v : Upload) × (find upload_id "upload" (transfer_all pending finished_db).uploads ≡ some v)
    × (v.receipt ≡ some receipt)
    × (v.status ≡ (the_upload finished_db).status)
    × (v.device ≡ (the_upload finished_db).device)
    × (v.content_id ≡ (the_upload finished_db).content_id)
    × (v.intent ≡ (the_upload finished_db).intent)
receipt_is_final_example =
    receipt_is_final pending finished_db "upload" (the_upload finished_db) receipt finished-AreSound
      finished_found finished_receipt

create_again_example :
    (v : Upload) × (create_upload "device" "content" "manifest" null "other"
        (transfer_all (requesting "upload" ∷ []) (transfer_all created empty))
      ≡ ok (v, transfer_all (requesting "upload" ∷ []) (transfer_all created empty)))
    × (v.id ≡ (the_upload (transfer_all created empty)).id)
create_again_example =
    create_again "device" "content" "manifest" null "upload" "other" (requesting "upload" ∷ [])
      empty (transfer_all created empty) (the_upload (transfer_all created empty)) empty-AreSound
      created_answer

create_upload-limit_example :
    (transfer_all created empty ≡ empty)
    ⊎ (pending_count "device" (transfer_all created empty).uploads ≤ 16)
create_upload-limit_example =
    create_upload-limit "device" "content" "manifest" null "upload" empty
      (transfer_all created empty) (the_upload (transfer_all created empty)) created_answer

gives_up_example :
    HasFailed
      ((the_upload (transfer_all pending empty)).verify_attempts + 5)
      (find upload_id "upload" (fail_all "upload" failures (transfer_all pending empty)).uploads)
gives_up_example =
    gives_up "upload" failures (transfer_all pending empty)
      (the_upload (transfer_all pending empty)) pending_found pending_status
      (omega (arith, pending_none)) (omega (arith, pending_none))

pending_upload-first_example :
    (o : Option UploadView) × (pending_upload (at 5) (transfer_all pending empty)
      ≡ ok (o, transfer_all pending empty))
    × Answer 5 (transfer_all pending empty).uploads o
pending_upload-first_example = pending_upload-first 5 (transfer_all pending empty)

-- Three uploads of one device, the second of which is verified.
abbrev three : Db
three =
    let u = the_upload (transfer_all created empty) in
    record empty {
      uploads =
          u
          ∷ record u { id = "second"; content_id = "second"; status = verified }
          ∷ record u { id = "third"; content_id = "third" }
          ∷ [];
    }

uploads-IsListed_example :
    (vs : List UploadView) × (uploads
        (some "device")
        (num 5)
        (num 1)
        (some ("awaiting_upload" ∷ []))
        three
      ≡ ok (vs, three))
    × IsListed (is_wanted (some "device") (some ("awaiting_upload" ∷ []))) 5 1 three.uploads vs
unfolding is_allowed
uploads-IsListed_example =
    uploads-IsListed (some "device") 5 1 (some ("awaiting_upload" ∷ [])) three (omega arith)
      (omega arith) refl
