-- ===== src/Files/Uploading.antt =====
-- The two ways a call of `createPresignedUpload` of src/files/files.service.ts ends.
use e_commerce_order_platfor.Common.{
  ◌≡◌, refl, ap, sym, ◌∙◌, String, Bool, true, ◌&&◌, ◌||◌, none, [], ◌∷◌, ◌++◌, ok, err, Exception,
  forbidden, text, find, delete_where-append_new, ◌==◌, arith, inl, inr, ◌⊎◌, Bool-cases,
  Result-cases,
}
use e_commerce_order_platfor.Database.{Uuid, Database, FileRecord, EFileOwnerType}
use e_commerce_order_platfor.Auth.{AuthUser, is_staff}
use e_commerce_order_platfor.Files.{
  Env, PresignFileDto, PresignedUpload, has_id, is_user_owner, on_files,
}
use e_commerce_order_platfor.Files.Mime.{extension_from_mime}
use e_commerce_order_platfor.Files.S3.{presign_put_object}
use e_commerce_order_platfor.Files.Presign.{
  create_presigned_upload, owner_exists, object_key, pending_record, assert_can_upload_for_owner,
  presign_args, owner_missing, store_and_sign,
}

-- Staff upload for every owner, a user for the own profile.
abbrev pub may_upload : AuthUser → EFileOwnerType → Uuid → Bool
may_upload u kind owner = is_staff u.roles || (is_user_owner kind && owner == u.sub)

pub assert_can_upload_lem :
    (u : AuthUser) (k : EFileOwnerType) (o : Uuid) (d : Database)
    → ((may_upload u k o ≡ true) × (assert_can_upload_for_owner u k o d ≡ (ok tt, d)))
      ⊎ ((e : Exception) × (assert_can_upload_for_owner u k o d ≡ (err e, d)))
assert_can_upload_lem u k o d = elim (Bool-cases (is_staff u.roles)) [
  | inl staff ↦ inl (ground arith, ground arith)
  | inr other ↦ elim (Bool-cases (is_user_owner k)) [
    | inr not_user ↦ inr (
      forbidden (text "Only staff can upload files for non-user owners"),
      rw (other, not_user) refl,
    )
    | inl is_user ↦ elim (Bool-cases (o == u.sub)) [
      | inl own ↦ inl (rw (other, is_user, own) refl, rw (other, is_user, own) refl)
      | inr others ↦ inr (
        forbidden (text "You can upload files only for your own user profile"),
        rw (other, is_user, others) refl,
      )
    ]
  ]
]

-- The row goes again where the signer fails.
store_and_sign_lem :
    (env : Env) (dto : PresignFileDto) (saved : FileRecord) (d : Database)
    → find (has_id saved.id) d.files ≡ none
    → ((r : PresignedUpload) × (presign_put_object env.s3 (presign_args dto saved.key)
          ≡ ok r.upload_url)
        × (r.file_id ≡ saved.id)
        × (r.key ≡ saved.key)
        × (store_and_sign env dto saved d ≡ (ok r, on_files (λ fs. fs ++ saved ∷ []) d)))
      ⊎ ((e : Exception) × (store_and_sign env dto saved d ≡ (err e, d)))
store_and_sign_lem env dto saved d fresh =
    elim (Result-cases (presign_put_object env.s3 (presign_args dto saved.key))) [
      | inl (url, signed) ↦
          let r : PresignedUpload = record {
            file_id = saved.id;
            key = saved.key;
            upload_url = url;
            content_type = saved.mime_type;
          } in
          inl (r, signed, refl, refl, rw signed refl)
      | inr (e, failed) ↦
          let gone = delete_where-append_new (has_id saved.id) d.files saved fresh (ground arith) in
          inr (e, rw (failed, gone) refl)
    ]

pub create_presigned_upload_outcome :
    (env : Env) (u : AuthUser) (dto : PresignFileDto) (d : Database)
    → find (has_id env.new_id) d.files ≡ none
    → ((e : Exception) × (create_presigned_upload env u dto d ≡ (err e, d)))
      ⊎ ((r : PresignedUpload) × (extension : String) × (may_upload u dto.owner_type dto.owner_id
            ≡ true)
          × (owner_exists dto.owner_type dto.owner_id d ≡ true)
          × (extension_from_mime dto.content_type ≡ ok extension)
          × (r.key ≡ object_key env dto.owner_type dto.owner_id extension)
          × (r.file_id ≡ env.new_id)
          × (presign_put_object env.s3 (presign_args dto r.key) ≡ ok r.upload_url)
          × (create_presigned_upload env u dto d
              ≡ (ok r, on_files (λ fs. fs ++ pending_record env u dto r.key ∷ []) d)))
unfolding create_presigned_upload
create_presigned_upload_outcome env u dto d fresh =
    let k = dto.owner_type in
    let o = dto.owner_id in
    elim (assert_can_upload_lem u k o d) [
      | inr (e, refused) ↦ inl (e, rw refused refl)
      | inl (may, passed) ↦ elim (Bool-cases (owner_exists k o d)) [
        | inr missing ↦ inl (owner_missing k, rw (passed, missing) refl)
        | inl found ↦ elim (Result-cases (extension_from_mime dto.content_type)) [
          | inr (e, bad) ↦ inl (e, rw (passed, found, bad) refl)
          | inl (x, good) ↦
              let key = object_key env k o x in
              elim (store_and_sign_lem env dto (pending_record env u dto key) d fresh) [
                | inr (e, failed) ↦ inl (e, rw (passed, found, good, failed) refl)
                | inl (r, signed, id, same, stored) ↦ inr (
                  r,
                  x,
                  may,
                  found,
                  good,
                  same,
                  id,
                  ap (λ q. presign_put_object env.s3 (presign_args dto q)) same ∙ signed,
                  rw (passed, found, good, stored)
                      (ap (λ q. (ok r, on_files (λ fs. fs ++ pending_record env u dto q ∷ []) d))
                        (sym same)),
                )
              ]
        ]
      ]
    ]
