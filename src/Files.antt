-- ===== src/Files.antt =====
-- Uploads (src/files): the service and the records it takes and gives.
pub mod Text
pub mod Mime
pub mod S3
pub mod Presign
pub mod Complete
pub mod Uploads
pub mod Completion
pub mod Images
pub mod Uploading
pub mod Runs
pub mod Lifecycle
mod Tests
use e_commerce_order_platfor.Common.{
  ⊤, ℕ, String, Bool, true, false, not, ◌&&◌, Option, List, Action, pure, throw_if, gets, or_throw,
  ◌>>=◌, ◌>>◌, text, forbidden, not_found, find, ◌==◌,
}
use e_commerce_order_platfor.Database.{
  Uuid, Database, FileRecord, Product, User, EFileStatus, EFileOwnerType, EFileVisibility,
}
use e_commerce_order_platfor.Auth.{AuthUser, is_staff}
use e_commerce_order_platfor.Files.S3.{S3Service, build_public_url}

pub record PresignFileDto : Type 0 where
  pub owner_type : EFileOwnerType
  pub owner_id : Uuid
  pub content_type : String
  pub size_bytes : ℕ
  pub original_name : Option String
  pub visibility : Option EFileVisibility

pub record PresignedUpload : Type 0 where
  pub file_id : Uuid
  pub key : String
  pub upload_url : String
  pub content_type : String

pub record FileView : Type 0 where
  pub id : Uuid
  pub owner_type : EFileOwnerType
  pub owner_id : Uuid
  pub status : EFileStatus
  pub content_type : String
  pub size_bytes : ℕ
  pub object_key : String
  pub bucket : String
  pub created_at : ℕ
  pub updated_at : ℕ
  pub public_url : String

-- What a call finds around it: the ids that are generated during the call, the clock, the store of
-- objects, and the text of a uuid.
pub record Env : Type 0 where
  pub new_id : Uuid
  pub random_uuid : Uuid
  pub now : ℕ
  pub s3 : S3Service
  pub uuid_text : Uuid → String

abbrev pub has_id : Uuid → FileRecord → Bool
has_id i f = f.id == i

abbrev pub is_user : Uuid → User → Bool
is_user i u = u.id == i

abbrev pub is_product : Uuid → Product → Bool
is_product i p = p.id == i

abbrev pub is_user_owner : EFileOwnerType → Bool
is_user_owner EFileOwnerType.user = true
is_user_owner EFileOwnerType.order = false
is_user_owner EFileOwnerType.product = false
is_user_owner EFileOwnerType.payment = false

abbrev pub is_own : AuthUser → FileRecord → Bool
is_own u f = is_user_owner f.owner_type && f.owner_id == u.sub

abbrev pub assert_user_or_staff : FileRecord → AuthUser → Action Database ⊤
assert_user_or_staff f u =
    throw_if (not (is_staff u.roles) && not (is_own u f))
      (forbidden (text "Not authorized to access this file."))

abbrev pub to_public_view : S3Service → FileRecord → FileView
to_public_view s3 f = record {
  id = f.id;
  owner_type = f.owner_type;
  owner_id = f.owner_id;
  status = f.status;
  content_type = f.mime_type;
  size_bytes = f.size;
  object_key = f.key;
  bucket = f.bucket;
  created_at = f.created_at;
  updated_at = f.updated_at;
  public_url = build_public_url s3 f.key;
}

abbrev pub find_file : Uuid → Action Database FileRecord
find_file i = do
  file ← gets (λ d. find (has_id i) d.files)
  or_throw file (not_found (text "File not found"))

unfoldable pub get_file_by_id : Env → AuthUser → Uuid → Action Database FileView
get_file_by_id env u i = do
  file ← find_file i
  assert_user_or_staff file u
  pure (to_public_view env.s3 file)

abbrev pub on_files : (List FileRecord → List FileRecord) → Database → Database
on_files f d = record d { files = f d.files }
