-- ===== src/Users/Tests.antt =====
-- A user who registers, logs in, and changes the email (src/users/users.service.ts).
use Prim.Native.String.{◌++◌ as append_text}
use package.text.Mathlib.Text.{◌==◌ as str_eq}
use e_commerce_order_platfor.Common.{
  ◌≡◌, refl, String, Bool, none, some, [], ◌∷◌, ok, err, unauthorized, text,
}
use e_commerce_order_platfor.Database.{User}
use e_commerce_order_platfor.Runtime.{App}
use e_commerce_order_platfor.Files.Text.{trim}
use e_commerce_order_platfor.Users.{
  CreateUserDto, UpdateUserDto, UsersEnv, UserResponseDto, transformed, new_user, create_user,
  post_user, update_user, get_by_id, remove_user,
}
use e_commerce_order_platfor.Users.Accounts.{
  post_login, on_users, registered_logs_in, updated_email_locks_out,
}

abbrev app : App
app = record {
  session = record {
    db = record {
      users = [];
      products = [];
      orders = [];
      order_items = [];
      payments = [];
      outbox_events = [];
      processed_messages = [];
      files = [];
      product_images = [];
    };
    tx = none;
    stranded = 0;
  };
  orders_created = 0;
  orders_failed = 0;
  status_changes = [];
  audit = [];
}

-- A toy hash.
abbrev env : UsersEnv
env = record { new_id = 1; now = 7; hash = λ s. append_text "#" s }

abbrev compare : String → String → Bool
compare password h = str_eq (append_text "#" password) h

abbrev dto : CreateUserDto
dto = record {
  first_name = "Ada";
  last_name = "Byron";
  email = "Ada@example.com ";
  password = "secret";
}

abbrev answer : UserResponseDto
answer = record {
  id = 1;
  first_name = "Ada";
  last_name = "Byron";
  email = "ada@example.com";
  created_at = 7;
  updated_at = 7;
}

registers : (post_user env dto app.session.db).0 ≡ ok answer
unfolding post_user create_user
registers = refl

registered_logs_in_example :
    (post_login compare "Ada@example.com "
      (trim "secret")
      (on_users app (post_user env dto app.session.db).1)).0
    ≡ ok (record { sub = 1; roles = some []; scopes = some [] })
registered_logs_in_example = registered_logs_in compare env dto app answer refl refl registers

abbrev ada : User
ada = new_user env (transformed dto)

abbrev app_with_ada : App
app_with_ada = on_users app (record app.session.db { users = ada ∷ [] })

abbrev change : UpdateUserDto
change = record { first_name = none; last_name = none; email = some "Countess@example.com" }

abbrev renamed : User
renamed = record ada { email = "Countess@example.com" }

changes : (update_user 1 change app_with_ada.session.db).0 ≡ ok renamed
unfolding update_user get_by_id
changes = refl

updated_email_locks_out_example :
    (renamed.email ≡ "Countess@example.com")
    × ((post_login compare "Countess@example.com" "secret"
          (on_users app_with_ada (update_user 1 change app_with_ada.session.db).1)).0
        ≡ err (unauthorized (text "Invalid email or password")))
updated_email_locks_out_example =
    updated_email_locks_out compare 1 change "Countess@example.com" "secret" app_with_ada renamed
      refl refl refl changes

removes : (remove_user 1 app_with_ada.session.db).1 ≡ app.session.db
unfolding remove_user
removes = refl
