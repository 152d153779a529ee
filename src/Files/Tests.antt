-- ===== src/Files/Tests.antt =====
-- The uploads of src/files on one product and one user.
use e_commerce_order_platfor.Common.{
  ◌≡◌, refl, true, false, none, some, [], ◌∷◌, ◌++◌, ok, err, ⊤, List, Exception, ◌⊎◌, ◌||◌, String,
  ℕ, Result, Bool,
}
use e_commerce_order_platfor.Database.{
  Uuid, Session, FileRecord, Product, ProductImage, EFileStatus, EFileOwnerType,
}
use e_commerce_order_platfor.Auth.{ERoles, AuthUser, is_staff}
use e_commerce_order_platfor.Files.{
  Env, PresignFileDto, PresignedUpload, FileView, is_own, to_public_view, on_files,
}
use e_commerce_order_platfor.Files.Mime.{extension_from_mime}
use e_commerce_order_platfor.Files.S3.{
  S3Service, presign_put_object, object_exists, build_public_url, PutObjectCommand,
}
use e_commerce_order_platfor.Files.Presign.{create_presigned_upload, object_key, pending_record}
use e_commerce_order_platfor.Files.Complete.{complete_upload, complete_in_tx}
use e_commerce_order_platfor.Files.Uploads.{IsComplete}
use e_commerce_order_platfor.Files.Completion.{complete_upload_outcome}
use e_commerce_order_platfor.Files.Images.{IsNumbered, IsNumberedFrom}
use e_commerce_order_platfor.Files.Runs.{Call, presign, complete, run, run-IsNumbered}
use e_commerce_order_platfor.Files.Lifecycle.{presigned_upload_completes}

abbrev signed : PutObjectCommand → ℕ → Result String
signed c n = ok "https://signed"

abbrev stored : String → String → Result ⊤
stored bucket key = ok tt

abbrev virtual : String → String → String
virtual bucket endpoint = endpoint

abbrev s3 : S3Service
s3 = record {
  region = "eu-central-1";
  bucket = "shop";
  endpoint = none;
  force_path_style = false;
  cloudfront_base_url = none;
  default_expires_in_sec = 900;
  get_signed_url = signed;
  head_object = stored;
  virtual_host = virtual;
}

abbrev uuid_text : Uuid → String
uuid_text i = "u"

abbrev env : Env
env = record { new_id = 50; random_uuid = 51; now = 9; s3 = s3; uuid_text = uuid_text }

abbrev later : Env
later = record { new_id = 60; random_uuid = 61; now = 12; s3 = s3; uuid_text = uuid_text }

abbrev staff : AuthUser
staff = record { sub = 2; roles = some (ERoles.admin ∷ []); scopes = none }

abbrev product : Product
product = record {
  id = 10;
  name = "pen";
  price = 100;
  description = "";
  stock = 3;
  created_at = 1;
  updated_at = 1;
}

abbrev session : Session
session = record {
  db = record {
    users = [];
    products = product ∷ [];
    orders = [];
    order_items = [];
    payments = [];
    outbox_events = [];
    processed_messages = [];
    files = [];
    product_images = [];
  };
  tx = none;
  stranded = 0;
}

abbrev dto : PresignFileDto
dto = record {
  owner_type = EFileOwnerType.product;
  owner_id = 10;
  content_type = "image/svg+xml; charset=utf-8";
  size_bytes = 100;
  original_name = some "  ";
  visibility = none;
}

abbrev answer : PresignedUpload
answer = record {
  file_id = 50;
  key = "products/u/images/u.xml";
  upload_url = "https://signed";
  content_type = "image/svg+xml; charset=utf-8";
}

abbrev uploaded : Session
uploaded = record session {
  db = on_files (λ fs. fs ++ pending_record env staff dto answer.key ∷ []) session.db;
}

presigns : create_presigned_upload env staff dto session.db ≡ (ok answer, uploaded.db)
unfolding create_presigned_upload presign_put_object extension_from_mime
presigns = refl

named_by_key : (pending_record env staff dto answer.key).original_name ≡ "u.xml"
named_by_key = refl

public_url : build_public_url s3 "a b/ü" ≡ "https://shop.s3.eu-central-1.amazonaws.com/a%20b/%C3%BC"
public_url = refl

complete_upload_outcome_example :
    ((e : Exception) × (complete_upload later staff 50 uploaded
        ≡ (err e, record uploaded { tx = none })))
    ⊎ ((v : FileView) × (f : FileRecord) × (s' : Session) × (complete_upload later staff 50 uploaded
          ≡ (ok v, s'))
        × (f.id ≡ 50)
        × ((is_staff staff.roles || is_own staff f) ≡ true)
        × IsComplete f s'.db
        × (v ≡ to_public_view later.s3 f)
        × (complete_upload env staff 50 s' ≡ (ok v, s')))
complete_upload_outcome_example = complete_upload_outcome later env staff 50 uploaded refl

in_store : object_exists s3 answer.key ≡ ok true
unfolding object_exists
in_store = refl

presigned_upload_completes_example :
    (v : FileView) × (t : Session) × (complete_upload later staff 50 uploaded ≡ (ok v, t))
    × (v.id ≡ 50)
    × (v.status ≡ EFileStatus.ready)
    × (v.object_key ≡ answer.key)
presigned_upload_completes_example =
    presigned_upload_completes env later staff dto answer session uploaded refl presigns in_store

abbrev calls : List Call
calls = presign env staff dto ∷ complete later staff 50 ∷ complete later staff 50 ∷ []

none-IsNumbered : IsNumbered []
unfolding IsNumbered IsNumberedFrom
none-IsNumbered p = tt

run-IsNumbered_example : IsNumbered (run calls session).db.product_images
run-IsNumbered_example = run-IsNumbered calls session none-IsNumbered

abbrev image_numbers : List ProductImage → List (Uuid × ℕ × Bool)
image_numbers [] = []
image_numbers (x ∷ xs) = (x.file_id, x.sort_order, x.is_primary) ∷ image_numbers xs

one_image : image_numbers (run calls session).db.product_images ≡ (50, 0, true) ∷ []
unfolding create_presigned_upload presign_put_object extension_from_mime complete_upload
    complete_in_tx object_exists
one_image = refl
