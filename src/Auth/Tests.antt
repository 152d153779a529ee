-- ===== src/Auth/Tests.antt =====
-- A login of an administrator (src/auth/auth.service.ts).
use package.text.Mathlib.Text.{◌==◌ as str_eq}
use e_commerce_order_platfor.Common.{◌≡◌, refl, String, Bool, true, none, some, [], ◌∷◌, ok, text}
use e_commerce_order_platfor.Database.{User}
use e_commerce_order_platfor.Runtime.{App}
use e_commerce_order_platfor.Auth.{ERoles, AuthUser}
use e_commerce_order_platfor.Auth.Login.{login, validate_user}

abbrev admin : User
admin = record {
  id = 1;
  first_name = "Ada";
  last_name = "Byron";
  email = "ada@example.com";
  password_hash = some "secret#hash";
  roles = "admin" ∷ "user" ∷ [];
  scopes = "order:read" ∷ "moon:walk" ∷ [];
  is_active = true;
  avatar_file_id = none;
  created_at = 0;
}

abbrev app : App
app = record {
  session = record {
    db = record {
      users = admin ∷ [];
      products = [];
      orders = [];
      order_items = [];
      payments = [];
      outbox_events = [];
      processed_messages = [];
      files = [];
      product_images = [];
    };
    tx = none;
    stranded = 0;
  };
  orders_created = 0;
  orders_failed = 0;
  status_changes = [];
  audit = [];
}

-- A toy `compare`.
abbrev compare : String → String → Bool
compare password h = str_eq password "secret"

abbrev payload : AuthUser
payload = record {
  sub = 1;
  roles = some (ERoles.admin ∷ ERoles.user ∷ []);
  scopes = some ("order:read" ∷ []);
}

logs_in : (login compare "ada@example.com" "secret" app).0 ≡ ok payload
unfolding login validate_user
logs_in = refl
