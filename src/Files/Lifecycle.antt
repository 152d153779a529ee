-- ===== src/Files/Lifecycle.antt =====
-- An upload from its presigned url to its place in the domain (src/files/files.service.ts).
use e_commerce_order_platfor.Common.{
  ◌≡◌, refl, ap, sym, ◌∙◌, subst, true, none, some, String, List, [], ◌∷◌, ◌++◌, ok, find, any,
  any-eq-is_some-find, update_where, find-append_none, arith, inl, inr, Bool-cases, Option-cases,
}
use e_commerce_order_platfor.Database.{
  Uuid, Database, Session, FileRecord, EFileStatus, EFileOwnerType,
}
use e_commerce_order_platfor.Auth.{AuthUser}
use e_commerce_order_platfor.Files.{
  Env, to_public_view, PresignFileDto, PresignedUpload, FileView, has_id, is_product, on_files,
}
use e_commerce_order_platfor.Files.S3.{object_exists}
use e_commerce_order_platfor.Files.Presign.{create_presigned_upload, owner_exists, pending_record}
use e_commerce_order_platfor.Files.Complete.{
  complete_in_tx, complete_upload, bind_by_owner, upload_pending, links, as_ready,
}
use e_commerce_order_platfor.Files.Uploads.{complete_rest}
use e_commerce_order_platfor.Files.Completion.{committed}
use e_commerce_order_platfor.Files.Uploading.{may_upload, create_presigned_upload_outcome}

bind_succeeds :
    (env : Env) (k : EFileOwnerType) (f : FileRecord) (d : Database)
    → owner_exists k f.owner_id d ≡ true
    → (bind_by_owner env k f d).0 ≡ ok tt
bind_succeeds env EFileOwnerType.user f d h = rw h refl
bind_succeeds env EFileOwnerType.order f d h = refl
bind_succeeds env EFileOwnerType.payment f d h = refl
bind_succeeds env EFileOwnerType.product f d h =
    elim (Option-cases (find (is_product f.owner_id) d.products)) [
      | inl none_found ↦
          absurd (ground (arith, any-eq-is_some-find (is_product f.owner_id) d.products))
      | inr (p, found) ↦ elim (Bool-cases (any (links f.owner_id f.id) d.product_images)) [
        | inl linked ↦ rw (found, linked) refl
        | inr fresh ↦ rw (found, fresh) refl
      ]
    ]

new_file_found :
    (env : Env) (u : AuthUser) (dto : PresignFileDto) (key : String) (d : Database)
    → find (has_id env.new_id) d.files ≡ none
    → find (has_id env.new_id) (d.files ++ pending_record env u dto key ∷ [])
      ≡ some (pending_record env u dto key)
new_file_found env u dto key d fresh =
    find-append_none (has_id env.new_id) d.files (pending_record env u dto key ∷ []) fresh
    ∙ ground arith

same_owner :
    (k : EFileOwnerType) (o : Uuid) (f : List FileRecord → List FileRecord) (d : Database)
    → owner_exists k o (on_files f d) ≡ owner_exists k o d
same_owner EFileOwnerType.user o f d = refl
same_owner EFileOwnerType.product o f d = refl
same_owner EFileOwnerType.order o f d = refl
same_owner EFileOwnerType.payment o f d = refl

upload_pending_lem :
    (env : Env) (f : FileRecord) (d : Database)
    → owner_exists f.owner_type f.owner_id d ≡ true
    → object_exists env.s3 f.key ≡ ok true
    → (upload_pending env f d).0 ≡ ok (to_public_view env.s3 (as_ready env.now f))
upload_pending_lem env f d there stored =
    let g = as_ready env.now f in
    let d1 = on_files (update_where (has_id f.id) (λ x. g)) d in
    let bound =
      bind_succeeds env f.owner_type g d1
        (same_owner f.owner_type f.owner_id (update_where (has_id f.id) (λ x. g)) d ∙ there) in
    rw (stored, bound) refl

pending_completes :
    (env env' : Env) (u : AuthUser) (dto : PresignFileDto) (key : String) (d : Database)
    → find (has_id env.new_id) d.files ≡ none
    → may_upload u dto.owner_type dto.owner_id ≡ true
    → owner_exists dto.owner_type dto.owner_id d ≡ true
    → object_exists env'.s3 key ≡ ok true
    → let f = pending_record env u dto key in
      (complete_in_tx env' u env.new_id (on_files (λ fs. fs ++ f ∷ []) d)).0
      ≡ ok (to_public_view env'.s3 (as_ready env'.now f))
pending_completes env env' u dto key d fresh may there stored =
    let f = pending_record env u dto key in
    let d' = on_files (λ fs. fs ++ f ∷ []) d in
    let found = new_file_found env u dto key d fresh in
    let rest = complete_rest env' u env.new_id d' f found may in
    ap (λ (r, t). r) rest
    ∙ upload_pending_lem env' f d'
        (same_owner f.owner_type f.owner_id (λ fs. fs ++ f ∷ []) d ∙ there) stored

-- A file presigned under a fresh id, whose object is in the store when the caller reports the upload, is
-- completed: the call succeeds for whoever presigned it, and answers that the file is ready.
pub presigned_upload_completes :
    (env env' : Env) (u : AuthUser) (dto : PresignFileDto) (r : PresignedUpload) (s s' : Session)
    → find (has_id env.new_id) s.db.files ≡ none
    → create_presigned_upload env u dto s.db ≡ (ok r, s'.db)
    → object_exists env'.s3 r.key ≡ ok true
    → (v : FileView) × (t : Session) × (complete_upload env' u r.file_id s' ≡ (ok v, t))
      × (v.id ≡ r.file_id)
      × (v.status ≡ EFileStatus.ready)
      × (v.object_key ≡ r.key)
presigned_upload_completes env env' u dto r s s' fresh h stored =
    elim (create_presigned_upload_outcome env u dto s.db fresh) [
      | inl (e, failed) ↦ absurd (ground arith)
      | inr (r', x, may, there, good, key, id, signed, made) ↦
          let f = pending_record env u dto r'.key in
          let same : r' ≡ r = ground arith in
          let db : on_files (λ fs. fs ++ f ∷ []) s.db ≡ s'.db = ground arith in
          let stored' = subst (λ q. object_exists env'.s3 q.key ≡ ok true) (sym same) stored in
          let done = pending_completes env env' u dto r'.key s.db fresh may there stored' in
          let named : env.new_id ≡ r.file_id =
            sym id ∙ ap (λ (q : PresignedUpload). q.file_id) same in
          let v = to_public_view env'.s3 (as_ready env'.now f) in
          let run : (complete_in_tx env' u r.file_id s'.db).0 ≡ ok v =
            subst (λ n. (complete_in_tx env' u n s'.db).0 ≡ ok v) named
              (subst (λ q. (complete_in_tx env' u env.new_id q).0 ≡ ok v) db done) in
          let t = record s' { db = (complete_in_tx env' u r.file_id s'.db).1; tx = none } in
          (v, t, committed env' u r.file_id s' v run, named, refl, ap (λ q. q.key) same)
    ]
