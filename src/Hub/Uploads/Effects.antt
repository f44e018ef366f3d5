-- ===== src/Hub/Uploads/Effects.antt =====
-- The effect of each upload operation on the table.
use sts2_the_perfect_defect.Prelude.{
  ℕ, ◌≡◌, refl, String, some, List, [], ◌∷◌, string_eq, option_eq, nat_eq,
}
use sts2_the_perfect_defect.Prelude.Result.{
  Result, Ensures, Ensures-ok, Ensures-err, Ensures-guard, Ensures-branch, Ensures-bind,
  Ensures-match, Ensures-expect,
}
use sts2_the_perfect_defect.Prelude.Table.{find}
use sts2_the_perfect_defect.Prelude.Keyed.{IsKeyed, update-IsKeyed, append-IsKeyed}
use sts2_the_perfect_defect.Prelude.Evolve.{Evolves, Evolves-refl, Evolves-append, Evolves-update}
use sts2_the_perfect_defect.Boundary.Json.{Json, json_eq}
use sts2_the_perfect_defect.Hub.Schema.{Db, Upload, upload_id, upload_status_eq, log_event}
use sts2_the_perfect_defect.Hub.Uploads.Create.{create_upload, insert_upload, new_upload}
use sts2_the_perfect_defect.Hub.Uploads.Verify.{
  request_verification, verification_failure, retry_upload, finish_upload, set_upload,
}
use sts2_the_perfect_defect.Hub.Uploads.Steps.{
  UploadStep, UploadStep-refl, IsConsistent, request_step, failure_step, retry_step, finish_step,
}

pub record UploadEffect (db db' : Db) : Type 0 where
  pub rows : Evolves UploadStep IsConsistent db.uploads db'.uploads
  pub keyed : IsKeyed upload_id db.uploads → IsKeyed upload_id db'.uploads

pub UploadEffect-refl : (db : Db) → UploadEffect db db
UploadEffect-refl db = record {
  rows = Evolves-refl UploadStep IsConsistent db.uploads UploadStep-refl;
  keyed = λ h. h;
}

UploadEffect-log :
    (actor op subject : String) (db db' : Db)
    → UploadEffect db db'
    → UploadEffect db (log_event actor op subject db')
unfolding log_event
UploadEffect-log actor op subject db db' h = record { rows = h.rows; keyed = h.keyed }

UploadEffect-row :
    (id : String) (f : Upload → Upload) (db : Db)
    → ((r : Upload) → find upload_id id db.uploads ≡ some r → UploadStep r (f r))
    → UploadEffect db (set_upload id f db)
UploadEffect-row id f db step = record {
  rows = Evolves-update UploadStep IsConsistent upload_id id f db.uploads UploadStep-refl step;
  keyed = update-IsKeyed upload_id id f db.uploads (λ r p. (step r p).id);
}

abbrev EffectOf : Db → {A : Type 0} → Result (A × Db) → Type 0
EffectOf db {A} r = Ensures (λ (p : A × Db). UploadEffect db p.1) r

same_row :
    (id : String) (t : List Upload) (row r : Upload)
    → find upload_id id t ≡ some row
    → find upload_id id t ≡ some r
    → row ≡ r
same_row id t row r e f = cc

pub request-Effect : (id : String) (db : Db) → EffectOf db (request_verification id db)
unfolding request_verification
request-Effect id db =
    Ensures-match _ _ _ (λ _. Ensures-ok _ (UploadEffect-refl db))
      λ row found.
        Ensures-branch _ _ _
          (λ waiting. Ensures-ok _ (
            UploadEffect-log _ _ _ db _ (
              UploadEffect-row id _ db
                λ r p. request_step r row (same_row id db.uploads row r found p) waiting)))
          (λ _. Ensures-ok _ (UploadEffect-refl db))

pub failure-Effect :
    (id code : String) (now : ℕ) (db : Db) → EffectOf db (verification_failure id code now db)
unfolding verification_failure
failure-Effect id code now db =
    Ensures-match _ _ _ (λ _. Ensures-ok _ (UploadEffect-refl db))
      λ row found.
        Ensures-branch _ _ _
          (λ waiting. Ensures-ok _ (
            UploadEffect-log _ _ _ db _ (
              UploadEffect-row id _ db
                λ r p. failure_step r row code now (same_row id db.uploads row r found p) waiting)))
          (λ _. Ensures-ok _ (UploadEffect-refl db))

pub retry-Effect : (id : String) (db : Db) → EffectOf db (retry_upload id db)
unfolding retry_upload
retry-Effect id db = Ensures-expect _ _ _ λ row found. Ensures-guard _ _ _ λ ended. Ensures-ok _ (
    UploadEffect-log _ _ _ db _ (
      UploadEffect-row id _ db
        λ r p. retry_step r row (same_row id db.uploads row r found p) ended))

pub finish-Effect :
    (id : String) (receipt : Json) (db : Db) → EffectOf db (finish_upload id receipt db)
unfolding finish_upload
finish-Effect id receipt db = Ensures-bind _ _ λ status attested. Ensures-bind _ _ λ _ _.
    Ensures-bind _ _ λ _ _. Ensures-expect _ _ _ λ row found. Ensures-guard _ _ _ λ _.
      Ensures-guard _ _ _ λ same. Ensures-ok _ (
        UploadEffect-log _ _ _ db _ (
          UploadEffect-row id _ db λ r p.
            finish_step r row status receipt (same_row id db.uploads row r found p) attested same))

insert-Effect :
    (u : Upload) (db : Db) → IsConsistent u → Ensures (UploadEffect db) (insert_upload u db)
unfolding insert_upload
insert-Effect u db new =
    Ensures-match _ _ _
      (λ free. Ensures-ok _ (record {
        rows = Evolves-append UploadStep IsConsistent db.uploads (u ∷ []) UploadStep-refl (new, tt);
        keyed = append-IsKeyed upload_id db.uploads u free;
      }))
      λ _ _. Ensures-err _

pub create-Effect :
    (device content_id sha : String) (intent : Json) (fresh : String) (db : Db)
    → EffectOf db (create_upload device content_id sha intent fresh db)
unfolding create_upload insert_upload
create-Effect device content_id sha intent fresh db =
    Ensures-match _ _ _
      (λ free. Ensures-guard _ _ _ λ _. Ensures-bind _ _ λ db' inserted.
        Ensures-expect _ _ _ λ row _. Ensures-ok _ (
          UploadEffect-log _ _ _ db db' (
            (insert-Effect (new_upload fresh device content_id sha intent) db
                (record { counted = refl; attested = tt })).holds
              db' inserted)))
      λ old _. Ensures-guard _ _ _ λ _. Ensures-guard _ _ _ λ _. Ensures-ok _ (UploadEffect-refl db)
