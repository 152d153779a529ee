-- ===== src/Files/Text.antt =====
-- The text operations of JavaScript that src/files uses, on texts as lists of characters.
use Prim.Native.Char.{Char, code}
use Prim.Native.String.{String, [], ◌∷◌, ◌++◌, char_at}
use Prim.Native.Nat.{◌%◌}
use e_commerce_order_platfor.Common.{
  ℕ, ◌+◌, ◌-◌, ◌/◌, Bool, true, false, ◌&&◌, ◌||◌, Option, none, some, leb, ltb, ◌==◌,
  if◌then◌else◌,
}

abbrev pub between : ℕ → ℕ → ℕ → Bool
between low high n = leb low n && leb n high

abbrev pub is_empty : String → Bool
is_empty [] = true
is_empty (c ∷ s) = false

abbrev pub includes : ℕ → String → Bool
includes k [] = false
includes k (c ∷ s) = code c == k || includes k s

-- `s.slice(s.indexOf(k) + 1)`, where `k` occurs.
abbrev pub after_first : ℕ → String → Option String
after_first k [] = none
after_first k (c ∷ s) = let rest = after_first k s in if code c == k then some s else rest

-- `s.slice(s.lastIndexOf(k) + 1)`, and `s.split(k).pop()`.
abbrev pub after_last : ℕ → String → String
after_last k [] = []
after_last k (c ∷ s) =
    let rest = after_last k s in if includes k s then rest else (if code c == k then s else c ∷ s)

-- `s.split(k)[0]`
abbrev pub before_first : ℕ → String → String
before_first k [] = []
before_first k (c ∷ s) = let rest = before_first k s in if code c == k then [] else c ∷ rest

-- The characters that pass a test.
abbrev pub keep : (ℕ → Bool) → String → String
keep p [] = []
keep p (c ∷ s) = let rest = keep p s in if p (code c) then c ∷ rest else rest

abbrev pub drop_while : (ℕ → Bool) → String → String
drop_while p [] = []
drop_while p (c ∷ s) = let rest = drop_while p s in if p (code c) then rest else c ∷ s

abbrev pub drop_end : (ℕ → Bool) → String → String
drop_end p [] = []
drop_end p (c ∷ s) = let rest = drop_end p s in if is_empty rest && p (code c) then [] else c ∷ rest

abbrev is_white : ℕ → Bool
is_white n =
    between 9 13 n
    || n == 32
    || n == 160
    || n == 5760
    || between 8192 8202 n
    || n == 8232
    || n == 8233
    || n == 8239
    || n == 8287
    || n == 12288
    || n == 65279

abbrev pub trim : String → String
trim s = drop_end is_white (drop_while is_white s)

-- The lower case of a character, as far as it has a letter of a-z in it: A-Z, the Kelvin sign and the
-- dotted capital I. Other characters are kept as they are.
abbrev lower : Char → String
lower c =
    let n = code c in
    if between 65 90 n
    then char_at "abcdefghijklmnopqrstuvwxyz" (n - 65) ∷ []
    else if n == 8490
    then "k"
    else if n == 304
    then "i̇"
    else c ∷ []

-- `toLowerCase`, on the letters of ASCII.
abbrev pub to_lower_case : String → String
to_lower_case [] = []
to_lower_case (c ∷ s) = lower c ++ to_lower_case s

abbrev hex_digit : ℕ → Char
hex_digit n = char_at "0123456789ABCDEF" n

abbrev escape : ℕ → String
escape n = char_at "%" 0 ∷ hex_digit (n / 16) ∷ hex_digit (n % 16) ∷ []

-- The bytes of the character's UTF-8, escaped.
abbrev escape_char : ℕ → String
escape_char n =
    if ltb n 128
    then escape n
    else if ltb n 2048
    then escape (192 + n / 64) ++ escape (128 + n % 64)
    else if ltb n 65536
    then escape (224 + n / 4096) ++ escape (128 + n / 64 % 64) ++ escape (128 + n % 64)
    else escape (240 + n / 262144)
      ++ escape (128 + n / 4096 % 64)
      ++ escape (128 + n / 64 % 64)
      ++ escape (128 + n % 64)

-- Letters, digits, and -_.!~*'().
abbrev is_unescaped : ℕ → Bool
is_unescaped n =
    between 65 90 n
    || between 97 122 n
    || between 48 57 n
    || n == 45
    || n == 95
    || n == 46
    || n == 33
    || n == 126
    || between 39 42 n

-- `s.split('/').map(encodeURIComponent).join('/')`: the separators stay.
abbrev pub encode_segments : String → String
encode_segments [] = []
encode_segments (c ∷ s) =
    (if code c == 47 || is_unescaped (code c) then c ∷ [] else escape_char (code c))
    ++ encode_segments s
