-- ===== src/Files/Runs.antt =====
-- Sequences of calls of `createPresignedUpload` and `completeUpload` of src/files/files.service.ts, with
-- any callers, files, clocks and answers of the store of objects.
use e_commerce_order_platfor.Common.{List, [], ◌∷◌, inl, inr, Bool-cases, Result-cases}
use e_commerce_order_platfor.Database.{Uuid, Database, Session, FileRecord}
use e_commerce_order_platfor.Auth.{AuthUser}
use e_commerce_order_platfor.Files.{Env, PresignFileDto}
use e_commerce_order_platfor.Files.Mime.{extension_from_mime}
use e_commerce_order_platfor.Files.S3.{presign_put_object}
use e_commerce_order_platfor.Files.Presign.{
  create_presigned_upload, store_and_sign, pending_record, presign_args, owner_exists, object_key,
}
use e_commerce_order_platfor.Files.Complete.{complete_in_tx, complete_upload}
use e_commerce_order_platfor.Files.Images.{IsNumbered, complete_in_tx-IsNumbered}
use e_commerce_order_platfor.Files.Uploading.{assert_can_upload_lem}

pub data Call : Type 0 where
  presign : Env → AuthUser → PresignFileDto → Call
  complete : Env → AuthUser → Uuid → Call

abbrev pub run_call : Call → Session → Session
run_call (presign env u dto) s = record s { db = (create_presigned_upload env u dto s.db).1 }
run_call (complete env u i) s = (complete_upload env u i s).1

abbrev pub run : List Call → Session → Session
run [] s = s
run (c ∷ cs) s = run cs (run_call c s)

store_and_sign-IsNumbered :
    (env : Env) (dto : PresignFileDto) (saved : FileRecord) (d : Database)
    → IsNumbered d.product_images
    → IsNumbered (store_and_sign env dto saved d).1.product_images
store_and_sign-IsNumbered env dto saved d h =
    elim (Result-cases (presign_put_object env.s3 (presign_args dto saved.key))) [
      | inl (url, signed) ↦ rw signed h
      | inr (e, failed) ↦ rw failed h
    ]

presign-IsNumbered :
    (env : Env) (u : AuthUser) (dto : PresignFileDto) (d : Database)
    → IsNumbered d.product_images
    → IsNumbered (create_presigned_upload env u dto d).1.product_images
unfolding create_presigned_upload
presign-IsNumbered env u dto d h =
    let k = dto.owner_type in
    let o = dto.owner_id in
    elim (assert_can_upload_lem u k o d) [
      | inr (e, refused) ↦ rw refused h
      | inl (may, passed) ↦ elim (Bool-cases (owner_exists k o d)) [
        | inr missing ↦ rw (passed, missing) h
        | inl found ↦ elim (Result-cases (extension_from_mime dto.content_type)) [
          | inr (e, bad) ↦ rw (passed, found, bad) h
          | inl (x, good) ↦
              rw (passed, found, good)
                (store_and_sign-IsNumbered env dto (pending_record env u dto (object_key env k o x))
                  d h)
        ]
      ]
    ]

complete-IsNumbered :
    (env : Env) (u : AuthUser) (i : Uuid) (s : Session)
    → IsNumbered s.db.product_images
    → IsNumbered (complete_upload env u i s).1.db.product_images
unfolding complete_upload
complete-IsNumbered env u i s h = elim (Result-cases (complete_in_tx env u i s.db).0) [
  | inl (v, done) ↦ rw done (complete_in_tx-IsNumbered env u i s.db h)
  | inr (e, failed) ↦ rw failed h
]

-- Whatever calls are made, in which order and with which outcome: where the images of each product are
-- numbered 0, 1, 2, … in the order they were added, and exactly the image number 0 is primary, they still
-- are.
pub run-IsNumbered :
    (cs : List Call) (s : Session)
    → IsNumbered s.db.product_images
    → IsNumbered (run cs s).db.product_images
run-IsNumbered [] s h = h
run-IsNumbered (presign env u dto ∷ cs) s h =
    let s' = run_call (presign env u dto) s in
    run-IsNumbered cs s' (presign-IsNumbered env u dto s.db h)
run-IsNumbered (complete env u i ∷ cs) s h =
    let s' = run_call (complete env u i) s in run-IsNumbered cs s' (complete-IsNumbered env u i s h)
