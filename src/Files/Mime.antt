-- ===== src/Files/Mime.antt =====
-- The extension of a file, from its content type (`extensionFromMime` of src/files/files.service.ts).
use Prim.Native.String.{String}
use package.text.Mathlib.Text.{◌==◌ as str_eq}
use e_commerce_order_platfor.Common.{
  ℕ, Bool, ◌||◌, Option, none, some, Result, ok, err, bad_request, text, ◌==◌, if◌then◌else◌, find,
  List, [], ◌∷◌,
}
use e_commerce_order_platfor.Files.Text.{
  is_empty, between, after_first, after_last, before_first, keep, to_lower_case,
}

abbrev known : List (String × String)
known =
    ("image/jpeg", "jpg")
    ∷ ("image/jpg", "jpg")
    ∷ ("image/png", "png")
    ∷ ("image/webp", "webp")
    ∷ ("image/gif", "gif")
    ∷ ("application/pdf", "pdf")
    ∷ ("text/plain", "txt")
    ∷ []

-- a-z, 0-9, and .+-
abbrev pub is_kept : ℕ → Bool
is_kept n = between 97 122 n || between 48 57 n || n == 46 || n == 43 || n == 45

abbrev no_extension : Result String
no_extension = err (bad_request (text "Cannot derive file extension"))

abbrev last_part : String → Result String
last_part normalized = if is_empty normalized then no_extension else ok (after_last 43 normalized)

-- What follows the slash.
abbrev subtype_extension : Option String → Result String
subtype_extension none = err (bad_request (text "Invalid contentType"))
subtype_extension (some rest) =
    if is_empty rest
    then err (bad_request (text "Invalid contentType"))
    else last_part (keep is_kept (before_first 59 rest))

abbrev or_derived : String → Option (String × String) → Result String
or_derived mime (some (m, extension)) = ok extension
or_derived mime none = subtype_extension (after_first 47 mime)

unfoldable pub extension_from_mime : String → Result String
extension_from_mime content_type =
    let mime = to_lower_case content_type in or_derived mime (find (λ (m, e). str_eq m mime) known)
