-- ===== src/Hub/Uploads/Runs.antt =====
-- What stays true of the uploads, whatever operations are called in whatever order.
use sts2_the_perfect_defect.Prelude.{
  ◌≡◌, String, some, List, [], ◌∷◌, ◌∙◌, arith, All, string_eq, option_eq, ◌∙◌, nat_eq,
}
use sts2_the_perfect_defect.Prelude.Result.{Result, Ensures}
use sts2_the_perfect_defect.Prelude.Table.{find, All-find}
use sts2_the_perfect_defect.Prelude.Keyed.{IsKeyed}
use sts2_the_perfect_defect.Prelude.Evolve.{
  Evolves, Evolves-refl, Evolves-trans, All-Evolves, find-Evolves,
}
use sts2_the_perfect_defect.Boundary.Json.{Json, json_eq}
use sts2_the_perfect_defect.Hub.Schema.{Db, Upload, upload_id, upload_status_eq}
use sts2_the_perfect_defect.Hub.Calls.{committed}
use sts2_the_perfect_defect.Hub.Runs.{committed-Ensures}
use sts2_the_perfect_defect.Hub.Uploads.Calls.{
  UploadCall, creating, requesting, failing, retrying, finishing, transfer, transfer_all,
}
use sts2_the_perfect_defect.Hub.Uploads.Steps.{
  UploadStep, UploadStep-refl, UploadStep-trans, IsConsistent,
}
use sts2_the_perfect_defect.Hub.Uploads.Effects.{
  UploadEffect, UploadEffect-refl, request-Effect, failure-Effect, retry-Effect, finish-Effect,
  create-Effect,
}

pub record AreSound (db : Db) : Type 0 where
  pub keyed : IsKeyed upload_id db.uploads
  pub consistent : All IsConsistent db.uploads

committed-Effect :
    {A : Type 0} (r : Result (A × Db)) (db : Db)
    → Ensures (λ (p : A × Db). UploadEffect db p.1) r
    → UploadEffect db (committed r db)
committed-Effect r db e = committed-Ensures (UploadEffect db) r db (UploadEffect-refl db) e

transfer-Effect : (c : UploadCall) (db : Db) → UploadEffect db (transfer c db)
unfolding transfer
transfer-Effect (creating d i s n f) db = committed-Effect _ db (create-Effect d i s n f db)
transfer-Effect (requesting i) db = committed-Effect _ db (request-Effect i db)
transfer-Effect (failing i e n) db = committed-Effect _ db (failure-Effect i e n db)
transfer-Effect (retrying i) db = committed-Effect _ db (retry-Effect i db)
transfer-Effect (finishing i r) db = committed-Effect _ db (finish-Effect i r db)

pub Effect-AreSound : (db db' : Db) → AreSound db → UploadEffect db db' → AreSound db'
Effect-AreSound db db' s e = record {
  keyed = e.keyed s.keyed;
  consistent =
      All-Evolves UploadStep IsConsistent IsConsistent db.uploads db'.uploads
        (λ u v h step. step.consistent h) (λ r h. h) s.consistent e.rows;
}

-- Whatever is called, the names of the uploads stay unique, a row is awaiting, pending or given up
-- exactly while it has no receipt, with no failed attempt, at most four, and five of them, and a
-- receipt says of itself the disposition that the row has.
pub transfer_all-AreSound :
    (cs : List UploadCall) (db : Db) → AreSound db → AreSound (transfer_all cs db)
unfolding transfer_all
transfer_all-AreSound [] db s = s
transfer_all-AreSound (c ∷ cs) db s =
    transfer_all-AreSound cs (transfer c db)
      (Effect-AreSound db (transfer c db) s (transfer-Effect c db))

pub transfer_all-rows :
    (cs : List UploadCall) (db : Db)
    → Evolves UploadStep IsConsistent db.uploads (transfer_all cs db).uploads
unfolding transfer_all
transfer_all-rows [] db = Evolves-refl UploadStep IsConsistent db.uploads UploadStep-refl
transfer_all-rows (c ∷ cs) db =
    Evolves-trans UploadStep IsConsistent db.uploads (transfer c db).uploads _ UploadStep-trans
      (λ r u h p. p.consistent h) (transfer-Effect c db).rows (transfer_all-rows cs (transfer c db))

-- An upload that has a receipt keeps it for ever, with its disposition, its device, its content and
-- its transport intent.
pub receipt_is_final :
    (cs : List UploadCall) (db : Db) (id : String) (u : Upload) (receipt : Json)
    → AreSound db
    → find upload_id id db.uploads ≡ some u
    → u.receipt ≡ some receipt
    → (v : Upload) × (find upload_id id (transfer_all cs db).uploads ≡ some v)
      × (v.receipt ≡ some receipt)
      × (v.status ≡ u.status)
      × (v.device ≡ u.device)
      × (v.content_id ≡ u.content_id)
      × (v.intent ≡ u.intent)
receipt_is_final cs db id u receipt sound found received =
    let (v, found', step) =
      find-Evolves UploadStep IsConsistent upload_id id db.uploads (transfer_all cs db).uploads u
        (λ r s p. p.id) (transfer_all-rows cs db) found in
    let consistent = All-find upload_id IsConsistent id db.uploads u sound.consistent found in
    let (same, status) = step.settled consistent (ground arith) in
    (v, found', same ∙ received, status, step.device, step.content_id, step.intent)
