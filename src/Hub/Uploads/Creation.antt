-- ===== src/Hub/Uploads/Creation.antt =====
-- `create_upload` called again for the same transfer, and its limit.
use sts2_the_perfect_defect.Prelude.{
  ℕ, ◌≤◌, ◌<◌, ◌⊎◌, ◌≡◌, refl, String, Bool, true, ◌||◌, none, some, List, [], ◌∷◌, ◌++◌, ◌∙◌,
  arith, ◌==◌, string_eq, ltb, eq_iff, total-append, Bool-cases, inl, inr,
}
use sts2_the_perfect_defect.Prelude.Result.{
  ok, ◌>>=◌, Ensures, Ensures-ok, Ensures-err, Ensures-guard, Ensures-bind, Ensures-match,
  Ensures-expect,
}
use sts2_the_perfect_defect.Prelude.Table.{find, first_where, find-append_new, All-find}
use sts2_the_perfect_defect.Prelude.Keyed.{find-first_where}
use sts2_the_perfect_defect.Prelude.Evolve.{Evolves}
use sts2_the_perfect_defect.Boundary.Json.{Json, json_eq, json_beq_iff}
use sts2_the_perfect_defect.Hub.Schema.{
  Db, Upload, upload_id, verified, upload_status_eq, log_event,
}
use sts2_the_perfect_defect.Hub.Uploads.Create.{
  create_upload, insert_upload, new_upload, is_transfer, pending_count, is_pending, one_if,
}
use sts2_the_perfect_defect.Hub.Uploads.Calls.{UploadCall, transfer_all}
use sts2_the_perfect_defect.Hub.Uploads.Steps.{UploadStep, IsConsistent, is_received}
use sts2_the_perfect_defect.Hub.Uploads.Runs.{AreSound, Effect-AreSound, transfer_all-rows}
use sts2_the_perfect_defect.Hub.Uploads.Effects.{create-Effect}

transfer_kept :
    (device content : String) (u v : Upload)
    → UploadStep u v
    → is_transfer device content v ≡ is_transfer device content u
transfer_kept device content u v step = rw (step.device, step.content_id) refl

-- The row of a transfer stays the first one of that device and content.
first_transfer-Evolves :
    (device content : String) (t u : List Upload) (r : Upload)
    → Evolves UploadStep IsConsistent t u
    → first_where (is_transfer device content) t ≡ some r
    → (s : Upload) × (first_where (is_transfer device content) u ≡ some s) × UploadStep r s
unfolding first_where
first_transfer-Evolves device content [] u r e h = absurd (ground arith)
first_transfer-Evolves device content (x ∷ t) [] r e h = absurd e
first_transfer-Evolves device content (x ∷ t) (y ∷ u) r e h =
    elim (Bool-cases (is_transfer device content x)) [
      | inl p ↦
          let same : x ≡ r = ground arith in
          (y, rw (transfer_kept device content x y e.0, p), rw (← same) e.0)
      | inr p ↦
          let (s, found, step) = first_transfer-Evolves device content t u r e.1 (rw p at h) in
          (s, rw (transfer_kept device content x y e.0, p) found, step)
    ]

-- What a creation returns: the row of the transfer, as it was asked for.
abbrev IsCreated : String → String → String → Json → Upload × Db → Type 0
IsCreated device content sha intent (u, db) =
    (first_where (is_transfer device content) db.uploads ≡ some u)
    × (u.manifest_sha ≡ sha)
    × ((u.intent == intent || u.status == verified) ≡ true)

first_where-append_new :
    (test : Upload → Bool) (t : List Upload) (u : Upload)
    → first_where test t ≡ none
    → test u ≡ true
    → first_where test (t ++ u ∷ []) ≡ some u
unfolding first_where
first_where-append_new test [] u h e = rw e refl
first_where-append_new test (x ∷ t) u h e = ground (arith, first_where-append_new test t u)

inserted_rows :
    (u : Upload) (db : Db)
    → Ensures
        (λ db'. (find upload_id u.id db.uploads ≡ none) × (db'.uploads ≡ db.uploads ++ u ∷ []))
        (insert_upload u db)
unfolding insert_upload
inserted_rows u db = Ensures-match _ _ _ (λ free. Ensures-ok _ (free, refl)) λ _ _. Ensures-err _

or-true : (b : Bool) → (b || true) ≡ true
or-true b = ground arith

one_if-bound : (b : Bool) → one_if b ≤ 1
one_if-bound b = ground arith

below : (n : ℕ) → ltb n 16 ≡ true → n < 16
below n h = ground arith

create_row :
    (device content sha : String) (intent : Json) (fresh : String) (db : Db)
    → Ensures
        (IsCreated device content sha intent)
        (create_upload device content sha intent fresh db)
unfolding create_upload log_event
create_row device content sha intent fresh db =
    let new = new_upload fresh device content sha intent in
    Ensures-match _ _ _
      (λ free. Ensures-guard _ _ _ λ _. Ensures-bind _ _ λ db' inserted.
        Ensures-expect _ _ _ λ row found.
          let (unused, grown) = (inserted_rows new db).holds db' inserted in
          let added : find upload_id fresh db'.uploads ≡ some new =
            rw grown (find-append_new upload_id new db.uploads unused) in
          let same : row ≡ new = cc in
          let first =
            first_where-append_new (is_transfer device content) db.uploads new free
              (ground (arith, eq_iff device device, eq_iff content content)) in
          Ensures-ok _ (rw (grown, same) (first, refl, ground (arith, json_beq_iff intent intent))))
      (λ old found. Ensures-guard _ _ _ λ sha_kept.
        Ensures-guard _ _ _ λ intent_kept.
          Ensures-ok _ (found, (eq_iff old.manifest_sha sha).0 sha_kept, intent_kept))

verified_received :
    (u : Upload) → IsConsistent u → (u.status == verified) ≡ true → is_received u ≡ true
verified_received u h e = ground (arith, h.counted)

still_acceptable :
    (u v : Upload) (intent : Json)
    → IsConsistent u
    → UploadStep u v
    → (u.intent == intent || u.status == verified) ≡ true
    → (v.intent == intent || v.status == verified) ≡ true
still_acceptable u v intent h step e = elim (Bool-cases (u.status == verified)) [
  | inl p ↦
      let (receipt, status) = step.settled h (verified_received u h p) in
      rw status (rw p (or-true (v.intent == intent)))
  | inr p ↦ rw step.intent (ground (arith, p))
]

create_found :
    (device content sha : String) (intent : Json) (fresh : String) (db : Db) (v : Upload)
    → first_where (is_transfer device content) db.uploads ≡ some v
    → v.manifest_sha ≡ sha
    → (v.intent == intent || v.status == verified) ≡ true
    → create_upload device content sha intent fresh db ≡ ok (v, db)
unfolding create_upload ◌>>=◌
create_found device content sha intent fresh db v found same acceptable =
    ground (arith, eq_iff v.manifest_sha sha)

-- Creating the same transfer again, however its upload went on in the meantime, answers with the
-- same upload and changes nothing.
pub create_again :
    (device content sha : String) (intent : Json) (fresh fresh' : String) (cs : List UploadCall)
    (db db' : Db) (u : Upload)
    → AreSound db
    → create_upload device content sha intent fresh db ≡ ok (u, db')
    → (v : Upload) × (create_upload device content sha intent fresh' (transfer_all cs db')
        ≡ ok (v, transfer_all cs db'))
      × (v.id ≡ u.id)
create_again device content sha intent fresh fresh' cs db db' u sound created =
    let (first, same, acceptable) =
      (create_row device content sha intent fresh db).holds (u, db') created in
    let sound' : AreSound db' =
      Effect-AreSound db db' sound
        ((create-Effect device content sha intent fresh db).holds (u, db') created) in
    let (v, found, step) =
      first_transfer-Evolves device content db'.uploads (transfer_all cs db').uploads u
        (transfer_all-rows cs db') first in
    let consistent : IsConsistent u =
      All-find upload_id IsConsistent u.id db'.uploads u sound'.consistent (
        find-first_where upload_id (is_transfer device content) db'.uploads u sound'.keyed first) in
    (
      v,
      create_found device content sha intent fresh' (transfer_all cs db') v found
          (step.manifest_sha ∙ same) (still_acceptable u v intent consistent step acceptable),
      step.id,
    )

abbrev IsWithin : String → Db → Upload × Db → Type 0
IsWithin device db (u, db') = (db' ≡ db) ⊎ (pending_count device db'.uploads ≤ 16)

create_limit :
    (device content sha : String) (intent : Json) (fresh : String) (db : Db)
    → Ensures (IsWithin device db) (create_upload device content sha intent fresh db)
unfolding create_upload log_event
create_limit device content sha intent fresh db =
    let new = new_upload fresh device content sha intent in
    Ensures-match _ _ _
      (λ free. Ensures-guard _ _ _ λ room. Ensures-bind _ _ λ db' inserted.
        Ensures-expect _ _ _ λ row found.
          let (unused, grown) = (inserted_rows new db).holds db' inserted in
          let sum = total-append (λ u. one_if (is_pending device u)) db.uploads (new ∷ []) in
          Ensures-ok _ (
            inr (
              rw grown (
                omega (
                  arith,
                  sum,
                  one_if-bound (is_pending device new),
                  below (pending_count device db.uploads) room,
                )))))
      (λ old found. Ensures-guard _ _ _ λ _. Ensures-guard _ _ _ λ _. Ensures-ok _ (inl refl))

-- A creation changes nothing, or leaves its device with at most 16 uploads that are still awaited.
pub create_upload-limit :
    (device content sha : String) (intent : Json) (fresh : String) (db db' : Db) (u : Upload)
    → create_upload device content sha intent fresh db ≡ ok (u, db')
    → (db' ≡ db) ⊎ (pending_count device db'.uploads ≤ 16)
create_upload-limit device content sha intent fresh db db' u h =
    (create_limit device content sha intent fresh db).holds (u, db') h
