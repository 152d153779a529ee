-- ===== src/Users.antt =====
-- `UsersService` of src/users/users.service.ts behind the routes of src/users/v1/users.controller.v1.ts, whose
-- DTOs change what was sent. bcrypt's `hash` and the time are arguments.
pub mod Accounts
mod Removal
mod Tests
use package.text.Mathlib.Text.{◌==◌ as str_eq}
use e_commerce_order_platfor.Common.{
  ⊤, ℕ, zero, suc, String, Bool, true, false, not, ◌&&◌, Option, none, some, List, [], ◌∷◌, ◌++◌,
  Action, pure, throw_if, or_throw, gets, modify, ◌>>=◌, ◌>>◌, text, plain, coded, find, any,
  select, delete_where, map, if◌then◌else◌, throw, update_where, or_default, ◌==◌,
}
use e_commerce_order_platfor.Database.{Uuid, User, Order, FileRecord, Database}
use e_commerce_order_platfor.Files.Text.{trim, to_lower_case}
use e_commerce_order_platfor.Pagination.{
  Codec, Page, Query, HasCursor, order_by_newest, paginate_query_builder_by_cursor,
}

pub record CreateUserDto : Type 0 where
  pub first_name : String
  pub last_name : String
  pub email : String
  pub password : String

pub record UpdateUserDto : Type 0 where
  pub first_name : Option String
  pub last_name : Option String
  pub email : Option String

pub record UserResponseDto : Type 0 where
  pub id : Uuid
  pub first_name : String
  pub last_name : String
  pub email : String
  pub created_at : ℕ
  pub updated_at : ℕ

pub record UsersEnv : Type 0 where
  pub new_id : Uuid
  pub now : ℕ
  pub hash : String → String

-- The transforms of `CreateUserDto`, and of the email of `LoginDto`.
abbrev pub normal_email : String → String
normal_email s = trim (to_lower_case s)

abbrev pub transformed : CreateUserDto → CreateUserDto
transformed dto = record dto { email = normal_email dto.email; password = trim dto.password }

abbrev pub has_id : Uuid → User → Bool
has_id i x = x.id == i

abbrev pub has_email : String → User → Bool
has_email s x = str_eq x.email s

-- `usersRepository.create`; the columns that it does not name have their defaults.
abbrev pub new_user : UsersEnv → CreateUserDto → User
new_user env dto = record {
  id = env.new_id;
  first_name = dto.first_name;
  last_name = dto.last_name;
  email = dto.email;
  password_hash = some (env.hash dto.password);
  roles = [];
  scopes = [];
  is_active = true;
  avatar_file_id = none;
  created_at = env.now;
}

abbrev pub view_of : ℕ → User → UserResponseDto
view_of now x = record {
  id = x.id;
  first_name = x.first_name;
  last_name = x.last_name;
  email = x.email;
  created_at = now;
  updated_at = now;
}

-- `create`; the email's unique key refuses a second user.
unfoldable pub create_user : UsersEnv → CreateUserDto → Action Database UserResponseDto
create_user env dto = do
  taken ← gets (λ d. any (has_email dto.email) d.users)
  throw_if taken (coded "23505")
  modify (λ d. record d { users = d.users ++ new_user env dto ∷ [] })
  pure (view_of env.now (new_user env dto))

-- `POST /users`
unfoldable pub post_user : UsersEnv → CreateUserDto → Action Database UserResponseDto
unfolding create_user
post_user env dto = create_user env (transformed dto)

-- `findOne` and `getById`
unfoldable pub get_by_id : Uuid → Action Database User
get_by_id i = do
  found ← gets (λ d. find (has_id i) d.users)
  or_throw found (plain (text "EntityNotFoundError"))

abbrev pub with_fields : UpdateUserDto → User → User
with_fields dto x = record x {
  first_name = or_default dto.first_name x.first_name;
  last_name = or_default dto.last_name x.last_name;
  email = or_default dto.email x.email;
}

abbrev pub is_others : Uuid → Option String → User → Bool
is_others i none x = false
is_others i (some s) x = not (has_id i x) && has_email s x

-- `update`: where no user has the id, the statement changes no row and the lookup fails.
unfoldable pub update_user : Uuid → UpdateUserDto → Action Database User
unfolding get_by_id
update_user i dto = do
  known ← gets (λ d. any (has_id i) d.users)
  taken ← gets (λ d. any (is_others i dto.email) d.users)
  throw_if (known && taken) (coded "23505")
  modify (λ d. record d { users = update_where (has_id i) (with_fields dto) d.users })
  get_by_id i

abbrev unset : Uuid → Option Uuid → Option Uuid
unset i none = none
unset i (some j) = if j == i then none else some j

abbrev pub is_buyer : Uuid → Order → Bool
is_buyer i o = o.user_id == i

abbrev pub without_uploader : Uuid → FileRecord → FileRecord
without_uploader i f = record f { uploaded_by_user_id = unset i f.uploaded_by_user_id }

abbrev pub without_user : Uuid → Database → Database
without_user i d = record d {
  users = delete_where (has_id i) d.users;
  files = map (without_uploader i) d.files;
}

-- `remove`, once its statement has ended. Nobody awaits it, so the answer is the same where an order of the user
-- refuses it (src/database/entities/order.entity.ts); what the user uploaded stays (file-record.entity.ts).
unfoldable pub remove_user : Uuid → Action Database ⊤
remove_user i = do
  bought ← gets (λ d. any (is_buyer i) d.orders)
  modify (λ d. if bought then d else without_user i d)

-- `delete`, which calls itself, where the stack has room for `depth` calls.
unfoldable pub delete_user : (depth : ℕ) → Uuid → Action Database User
delete_user zero i = throw (plain (text "Maximum call stack size exceeded"))
delete_user (suc depth) i = delete_user depth i

instance abbrev pub user_cursor : HasCursor User
user_cursor = record { cursor_key = λ x. record { id = x.id; created_at = x.created_at } }

-- `findAll`
unfoldable pub find_all_users : Codec → Query → Action Database (Page User)
find_all_users codec query d =
    (paginate_query_builder_by_cursor (λ x. 0) codec (order_by_newest d.users) query, d)
