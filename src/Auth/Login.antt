-- ===== src/Auth/Login.antt =====
-- `AuthService` of src/auth/auth.service.ts and the guard of src/auth/guards/access.guard.ts. bcrypt's
-- `compare` is a parameter; a signed token stands for its payload.
use package.text.Mathlib.Text.{◌==◌ as str_eq}
use e_commerce_order_platfor.Common.{
  String, Bool, true, false, not, ◌&&◌, Option, none, some, List, [], ◌∷◌, ◌++◌, Action, pure,
  throw, gets, modify, ◌>>=◌, ◌>>◌, Result, ok, err, text, unauthorized, forbidden, find, any, all,
  select, is_some, if◌then◌else◌,
}
use e_commerce_order_platfor.Database.{Uuid, User}
use e_commerce_order_platfor.Runtime.{App, AuditEvent, auth_login_failed, AuditOutcome}
use e_commerce_order_platfor.Auth.{ERoles, AuthUser, some_of}

-- The values of `ERoles`.
abbrev pub role_of : String → Option ERoles
role_of s =
    if str_eq s "admin"
    then some ERoles.admin
    else if str_eq s "owner"
    then some ERoles.owner
    else if str_eq s "support"
    then some ERoles.support
    else if str_eq s "user"
    then some ERoles.user
    else none

-- UNITED_SCOPES
abbrev pub united_scopes : List String
united_scopes =
    "order:read" ∷ "order:write" ∷ "product:read" ∷ "product:write" ∷ "user:read" ∷ "user:write"
    ∷ "payment:read" ∷ "payment:write" ∷ "refund:write" ∷ []

abbrev pub is_united_scope : String → Bool
is_united_scope s = any (str_eq s) united_scopes

-- `checkArrayToEnum`
abbrev pub check_array_to_enum : List String → Bool
check_array_to_enum values = all (λ s. is_some (role_of s)) values

abbrev cons_role : Option ERoles → List ERoles → List ERoles
cons_role none rs = rs
cons_role (some r) rs = r ∷ rs

-- The strings of an array that passed the check, as roles.
abbrev pub roles_of : List String → List ERoles
roles_of [] = []
roles_of (s ∷ ss) = cons_role (role_of s) (roles_of ss)

abbrev pub safe_user : User → AuthUser
safe_user user = record {
  sub = user.id;
  roles = some (if check_array_to_enum user.roles then roles_of user.roles else []);
  scopes = some (select is_united_scope user.scopes);
}

-- The actor 'anonymous' and the target 'unknown' are `none`.
abbrev pub login_failed : Option Uuid → String → AuditEvent
login_failed user target_type = record {
  action = auth_login_failed;
  actor_id = user;
  target_type = target_type;
  target_id = user;
  outcome = AuditOutcome.failure;
  reason = some (text "invalid_credentials");
}

-- An entry of the audit, and the 401.
abbrev pub refuse_login : AuditEvent → Action App AuthUser
refuse_login e = do
  modify (λ w. record w { audit = w.audit ++ e ∷ [] })
  throw (unauthorized (text "Invalid email or password"))

-- `user?.passwordHash`, which an empty string is not.
abbrev pub hash_of : Option User → Option (User × String)
hash_of none = none
hash_of (some user) = elim user.password_hash [
  | none ↦ none
  | some h ↦ if str_eq h "" then none else some (user, h)
]

abbrev pub compare_password :
    (String → String → Bool) → String → Option (User × String) → Action App AuthUser
compare_password compare password none = refuse_login (login_failed none "auth_identity")
compare_password compare password (some (user, h)) =
    if compare password h
    then pure (safe_user user)
    else refuse_login (login_failed (some user.id) "user")

unfoldable pub validate_user : (String → String → Bool) → String → String → Action App AuthUser
validate_user compare email password = do
  user ← gets (λ w. find (λ x. str_eq x.email email) w.session.db.users)
  compare_password compare password (hash_of user)

-- `login`: the payload of the token is the user.
unfoldable pub login : (String → String → Bool) → String → String → Action App AuthUser
login compare email password = validate_user compare email password

abbrev pub same_role : ERoles → ERoles → Bool
same_role ERoles.admin ERoles.admin = true
same_role ERoles.owner ERoles.owner = true
same_role ERoles.support ERoles.support = true
same_role ERoles.user ERoles.user = true
same_role a b = false

-- `!xs || xs.length === 0`
abbrev pub is_unset : {A : Type 0} → Option (List A) → Bool
is_unset none = true
is_unset (some []) = true
is_unset (some (x ∷ xs)) = false

-- `required ? required.some((r) => granted?.includes(r)) : true`
abbrev pub has_one : {A : Type 0} → (A → A → Bool) → Option (List A) → Option (List A) → Bool
has_one same none granted = true
has_one same (some required) granted = any (λ r. some_of (same r) granted) required

abbrev pub check_access : Option (List ERoles) → Option (List String) → AuthUser → Result Bool
check_access roles scopes u =
    if not (has_one same_role roles u.roles)
    then err (forbidden (text "Access denied: insufficient role"))
    else if not (has_one str_eq scopes u.scopes)
    then err (forbidden (text "Access denied: insufficient permissions"))
    else ok true

abbrev pub check_user : Option (List ERoles) → Option (List String) → Option AuthUser → Result Bool
check_user roles scopes none = err (unauthorized (text "Authentication required"))
check_user roles scopes (some u) = check_access roles scopes u

-- `canActivate`, on what the route requires and the user of the request.
unfoldable pub guard : Option (List ERoles) → Option (List String) → Option AuthUser → Result Bool
guard roles scopes user =
    if is_unset roles && is_unset scopes then ok true else check_user roles scopes user
