-- ===== src/Auth.antt =====
-- Who calls: the payload of a token (src/auth/types.ts) and the roles (src/auth/access/roles.ts,
-- src/auth/access/scopes.ts).
pub mod Login
pub mod Access
mod Tests
use e_commerce_order_platfor.Common.{String, Bool, true, false, Option, none, some, List, any}
use e_commerce_order_platfor.Database.{Uuid}

pub data ERoles : Type 0 where
  admin owner support user : ERoles

-- The scopes of all enums, as their strings.
pub record AuthUser : Type 0 where
  pub sub : Uuid
  pub roles : Option (List ERoles)
  pub scopes : Option (List String)

abbrev pub is_admin_or_support : ERoles → Bool
is_admin_or_support ERoles.admin = true
is_admin_or_support ERoles.support = true
is_admin_or_support ERoles.owner = false
is_admin_or_support ERoles.user = false

-- `xs?.some(p)`, where `undefined` counts as false.
abbrev pub some_of : {A : Type 0} → (A → Bool) → Option (List A) → Bool
some_of p none = false
some_of p (some xs) = any p xs

-- `isStaff` of src/orders/orders.service.ts.
abbrev pub is_staff : Option (List ERoles) → Bool
is_staff roles = some_of is_admin_or_support roles
