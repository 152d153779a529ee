-- ===== src/Files/Presign.antt =====
-- `createPresignedUpload` of src/files/files.service.ts.
use Prim.Native.String.{◌++◌ as append_text}
use e_commerce_order_platfor.Common.{
  ◌++◌, ⊤, String, Bool, not, ◌&&◌, Option, none, some, List, [], ◌∷◌, Action, pure, throw,
  throw_if, gets, modify, try_catch, then_do, ◌>>=◌, ◌>>◌, text, Exception, forbidden, not_found,
  any, delete_where, ◌==◌, if◌then◌else◌, or_default,
}
use e_commerce_order_platfor.Database.{
  Uuid, Database, FileRecord, EFileStatus, EFileOwnerType, EFileVisibility,
}
use e_commerce_order_platfor.Auth.{AuthUser, is_staff}
use e_commerce_order_platfor.Files.Text.{trim, after_last, is_empty}
use e_commerce_order_platfor.Files.Mime.{extension_from_mime}
use e_commerce_order_platfor.Files.S3.{presign_put_object, PresignArgs, PresignArgs}
use e_commerce_order_platfor.Files.{
  PresignFileDto, PresignedUpload, Env, has_id, is_user, is_product, is_user_owner, on_files,
}

abbrev pub assert_can_upload_for_owner : AuthUser → EFileOwnerType → Uuid → Action Database ⊤
assert_can_upload_for_owner u kind owner = if is_staff u.roles then pure tt else do
  throw_if (is_user_owner kind && not (owner == u.sub))
      (forbidden (text "You can upload files only for your own user profile"))
  throw_if (not (is_user_owner kind))
      (forbidden (text "Only staff can upload files for non-user owners"))

abbrev pub owner_exists : EFileOwnerType → Uuid → Database → Bool
owner_exists EFileOwnerType.user i d = any (is_user i) d.users
owner_exists EFileOwnerType.product i d = any (is_product i) d.products
owner_exists EFileOwnerType.order i d = any (λ o. o.id == i) d.orders
owner_exists EFileOwnerType.payment i d = any (λ p. p.id == i) d.payments

abbrev pub owner_missing : EFileOwnerType → Exception
owner_missing EFileOwnerType.user = not_found (text "user owner not found")
owner_missing EFileOwnerType.product = not_found (text "product owner not found")
owner_missing EFileOwnerType.order = not_found (text "order owner not found")
owner_missing EFileOwnerType.payment = not_found (text "payment owner not found")

abbrev pub assert_owner_exists : EFileOwnerType → Uuid → Action Database ⊤
assert_owner_exists kind i = do
  exists ← gets (owner_exists kind i)
  throw_if (not exists) (owner_missing kind)

abbrev pub folder : EFileOwnerType → String
folder EFileOwnerType.user = "users/"
folder EFileOwnerType.product = "products/"
folder EFileOwnerType.order = "orders/"
folder EFileOwnerType.payment = "payments/"

abbrev pub subfolder : EFileOwnerType → String
subfolder EFileOwnerType.user = "/avatars/"
subfolder EFileOwnerType.product = "/images/"
subfolder EFileOwnerType.order = "/attachments/"
subfolder EFileOwnerType.payment = "/attachments/"

abbrev pub joined : List String → String
joined [] = ""
joined (s ∷ ss) = append_text s (joined ss)

abbrev pub object_key : Env → EFileOwnerType → Uuid → String → String
object_key env kind owner extension = joined (
    folder kind
    ∷ env.uuid_text owner
    ∷ subfolder kind
    ∷ env.uuid_text env.random_uuid
    ∷ "."
    ∷ extension
    ∷ [])

abbrev pub generate_object_key : Env → EFileOwnerType → Uuid → String → Action Database String
generate_object_key env kind owner content_type d =
    then_do (λ extension. pure (object_key env kind owner extension))
      (extension_from_mime content_type) d

abbrev or_else : String → String → String
or_else s other = if is_empty s then other else s

-- `dto.originalName?.trim() || key.split('/').pop() || 'file'`
abbrev pub name_of : Option String → String → String
name_of none key = or_else (after_last 47 key) "file"
name_of (some s) key = or_else (trim s) (or_else (after_last 47 key) "file")

abbrev pub pending_record : Env → AuthUser → PresignFileDto → String → FileRecord
pending_record env u dto key = record {
  id = env.new_id;
  owner_type = dto.owner_type;
  owner_id = dto.owner_id;
  uploaded_by_user_id = some u.sub;
  bucket = env.s3.bucket;
  key = key;
  mime_type = dto.content_type;
  size = dto.size_bytes;
  status = EFileStatus.pending;
  original_name = name_of dto.original_name key;
  visibility = or_default dto.visibility EFileVisibility.private;
  created_at = env.now;
  updated_at = env.now;
}

abbrev pub presign_args : PresignFileDto → String → PresignArgs
presign_args dto key = record {
  key = key;
  content_type = dto.content_type;
  size_bytes = dto.size_bytes;
  expires_in_sec = none;
}

-- The `try` and its `catch`.
abbrev pub signed_url : Env → PresignFileDto → FileRecord → Action Database String
signed_url env dto saved =
    try_catch (λ d. (presign_put_object env.s3 (presign_args dto saved.key), d))
      (λ e. modify (on_files (delete_where (has_id saved.id))) >> throw e)

-- From the `save` on.
abbrev pub store_and_sign : Env → PresignFileDto → FileRecord → Action Database PresignedUpload
store_and_sign env dto saved = do
  modify (on_files (λ fs. fs ++ saved ∷ []))
  upload_url ← signed_url env dto saved
  pure (record {
    file_id = saved.id;
    key = saved.key;
    upload_url = upload_url;
    content_type = saved.mime_type;
  })

-- Each statement is its own transaction.
unfoldable pub create_presigned_upload :
    Env → AuthUser → PresignFileDto → Action Database PresignedUpload
create_presigned_upload env u dto = do
  assert_can_upload_for_owner u dto.owner_type dto.owner_id
  assert_owner_exists dto.owner_type dto.owner_id
  key ← generate_object_key env dto.owner_type dto.owner_id dto.content_type
  store_and_sign env dto (pending_record env u dto key)
