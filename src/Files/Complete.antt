-- ===== src/Files/Complete.antt =====
-- `completeUpload` of src/files/files.service.ts, and what a complete upload is bound to.
use e_commerce_order_platfor.Common.{
  ◌++◌, ⊤, ℕ, Bool, not, ◌&&◌, some, List, [], ◌∷◌, Action, pure, throw, throw_if, gets, modify,
  or_throw, ◌>>=◌, ◌>>◌, Result, ok, err, text, bad_request, not_found, conflict, find, any, select,
  length, update_where, ◌==◌, if◌then◌else◌,
}
use e_commerce_order_platfor.Database.{
  Uuid, Database, Session, FileRecord, ProductImage, User, EFileStatus, EFileOwnerType, in_tx,
  start_transaction, commit, rollback,
}
use e_commerce_order_platfor.Auth.{AuthUser}
use e_commerce_order_platfor.Files.S3.{object_exists}
use e_commerce_order_platfor.Files.{
  FileView, Env, has_id, is_user, is_product, assert_user_or_staff, to_public_view, find_file,
  on_files,
}

abbrev pub on_users : (List User → List User) → Database → Database
on_users f d = record d { users = f d.users }

abbrev pub with_avatar : Uuid → User → User
with_avatar i u = record u { avatar_file_id = some i }

abbrev pub bind_user_avatar : FileRecord → Action Database ⊤
bind_user_avatar f = do
  affected ← gets (λ d. any (is_user f.owner_id) d.users)
  modify (on_users (update_where (is_user f.owner_id) (with_avatar f.id)))
  throw_if (not affected) (not_found (text "User owner not found"))

abbrev pub image_of : Uuid → ProductImage → Bool
image_of p x = x.product_id == p

abbrev pub links : Uuid → Uuid → ProductImage → Bool
links p i x = x.product_id == p && x.file_id == i

abbrev pub new_image : Env → FileRecord → ℕ → ProductImage
new_image env f existing_count = record {
  id = env.new_id;
  product_id = f.owner_id;
  file_id = f.id;
  sort_order = existing_count;
  is_primary = existing_count == 0;
  created_at = env.now;
  updated_at = env.now;
}

abbrev add_image : Env → FileRecord → Action Database ⊤
add_image env f = do
  existing_count ← gets (λ d. length (select (image_of f.owner_id) d.product_images))
  modify
      (λ d. record d { product_images = d.product_images ++ new_image env f existing_count ∷ [] })

-- The product's row is locked, so no other call counts its images at the same time.
abbrev pub bind_product_image : Env → FileRecord → Action Database ⊤
bind_product_image env f = do
  product ← gets (λ d. find (is_product f.owner_id) d.products)
  found ← or_throw product (not_found (text "Product not found"))
  already_linked ← gets (λ d. any (links f.owner_id f.id) d.product_images)
  if already_linked then pure tt else add_image env f

abbrev pub bind_by_owner : Env → EFileOwnerType → FileRecord → Action Database ⊤
bind_by_owner env EFileOwnerType.user f = bind_user_avatar f
bind_by_owner env EFileOwnerType.product f = bind_product_image env f
bind_by_owner env EFileOwnerType.order f = pure tt
bind_by_owner env EFileOwnerType.payment f = pure tt

abbrev pub bind_file_to_domain : Env → FileRecord → Action Database ⊤
bind_file_to_domain env f = bind_by_owner env f.owner_type f

abbrev pub as_ready : ℕ → FileRecord → FileRecord
as_ready now f = record f { status = EFileStatus.ready; updated_at = now }

abbrev save_ready : Env → FileRecord → Action Database FileRecord
save_ready env f = do
  let saved = as_ready env.now f
  modify (on_files (update_where (has_id f.id) (λ x. saved)))
  pure saved

abbrev pub bound_view : Env → FileRecord → Action Database FileView
bound_view env f = do bind_file_to_domain env f; pure (to_public_view env.s3 f)

abbrev pub upload_pending : Env → FileRecord → Action Database FileView
upload_pending env f = do
  exists ← λ d. (object_exists env.s3 f.key, d)
  throw_if (not exists) (bad_request (text "File object is missing in storage"))
  saved ← save_ready env f
  bound_view env saved

-- The branches on `file.status`.
abbrev pub complete_by_status : Env → EFileStatus → FileRecord → Action Database FileView
complete_by_status env EFileStatus.ready f = bound_view env f
complete_by_status env EFileStatus.failed f =
    throw (conflict (text "File cannot be completed from status \"failed\""))
complete_by_status env EFileStatus.pending f = upload_pending env f

-- What `completeUpload` does inside of its transaction.
unfoldable pub complete_in_tx : Env → AuthUser → Uuid → Action Database FileView
complete_in_tx env u i = do
  file ← find_file i
  assert_user_or_staff file u
  complete_by_status env file.status file

abbrev settle : {A : Type 0} → Result A → Session → Session
settle (ok a) s = commit s
settle (err e) s = rollback s

-- `manager.transaction(m)`
abbrev pub transaction : {A : Type 0} → Action Database A → Action Session A
transaction m s = let (r, s') = in_tx m (start_transaction s) in (r, settle r s')

unfoldable pub complete_upload : Env → AuthUser → Uuid → Action Session FileView
complete_upload env u i = transaction (complete_in_tx env u i)
