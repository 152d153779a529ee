-- ===== src/Files/S3.antt =====
-- The store of objects (src/files/s3.service.ts). The client of AWS, the signer and the class `URL` are
-- not the repository's: they are the last three fields.
use Prim.Native.String.{◌++◌}
use e_commerce_order_platfor.Common.{
  ℕ, String, Bool, Option, none, some, min, ltb, Result, ok, err, Exception, coded, ⊤,
  if◌then◌else◌, or_default,
}
use e_commerce_order_platfor.Files.Text.{encode_segments, drop_end, is_empty}
use package.text.Mathlib.Text.{◌==◌ as str_eq}
use e_commerce_order_platfor.Common.{◌==◌}

pub record PutObjectCommand : Type 0 where
  pub bucket : String
  pub key : String
  pub content_type : String
  pub content_length : ℕ

-- `expires_in_sec` is none when it is absent.
pub record PresignArgs : Type 0 where
  pub key : String
  pub content_type : String
  pub size_bytes : ℕ
  pub expires_in_sec : Option ℕ

pub record S3Service : Type 0 where
  pub region : String
  pub bucket : String
  pub endpoint : Option String
  pub force_path_style : Bool
  pub cloudfront_base_url : Option String
  pub default_expires_in_sec : ℕ
  -- `getSignedUrl(client, command, { expiresIn })`
  pub get_signed_url : PutObjectCommand → ℕ → Result String
  -- `client.send(new HeadObjectCommand({ Bucket, Key }))`; an error has the HTTP status as its code.
  pub head_object : String → String → Result ⊤
  -- `new URL(endpoint)` with the bucket in front of its host, as a text.
  pub virtual_host : String → String → String

abbrev pub seven_days : ℕ
seven_days = 604800

-- The constructor's `defaultExpiresInSec`; `none` stands for a setting that is no finite number.
abbrev pub default_expires : Option ℕ → ℕ
default_expires none = 900
default_expires (some n) = if ltb 0 n then n else 900

-- `safeExpiresInSec`, for whole numbers of seconds.
abbrev pub safe_expires : S3Service → Option ℕ → ℕ
safe_expires s3 requested =
    let n = or_default requested s3.default_expires_in_sec in
    min (if ltb 0 n then n else s3.default_expires_in_sec) seven_days

unfoldable pub presign_put_object : S3Service → PresignArgs → Result String
presign_put_object s3 args =
    s3.get_signed_url
      (record {
        bucket = s3.bucket;
        key = args.key;
        content_type = args.content_type;
        content_length = args.size_bytes;
      })
      (safe_expires s3 args.expires_in_sec)

abbrev is_missing : Exception → Bool
is_missing (coded status) = str_eq status "404"
is_missing e = Bool.false

abbrev to_boolean : Result ⊤ → Result Bool
to_boolean (ok u) = ok Bool.true
to_boolean (err e) = if is_missing e then ok Bool.false else err e

unfoldable pub object_exists : S3Service → String → Result Bool
object_exists s3 key = to_boolean (s3.head_object s3.bucket key)

abbrev trim_slashes : String → String
trim_slashes s = drop_end (λ c. c == 47) s

-- `trimTrailingSlash`
abbrev pub trim_trailing_slash : Option String → Option String
trim_trailing_slash none = none
trim_trailing_slash (some s) = some (trim_slashes s)

-- A text that is absent or empty counts as false.
abbrev given : Option String → Option String
given none = none
given (some s) = if is_empty s then none else some s

abbrev at_endpoint : S3Service → Option String → String → String
at_endpoint s3 none path =
    "https://" ++ s3.bucket ++ ".s3." ++ s3.region ++ ".amazonaws.com/" ++ path
at_endpoint s3 (some url) path =
    let endpoint = trim_slashes url in
    if s3.force_path_style
    then endpoint ++ "/" ++ s3.bucket ++ "/" ++ path
    else trim_slashes (s3.virtual_host s3.bucket endpoint) ++ "/" ++ path

abbrev at_cloudfront : S3Service → Option String → String → String
at_cloudfront s3 none path = at_endpoint s3 (given s3.endpoint) path
at_cloudfront s3 (some base) path = base ++ "/" ++ path

abbrev pub build_public_url : S3Service → String → String
build_public_url s3 key = at_cloudfront s3 (given s3.cloudfront_base_url) (encode_segments key)
