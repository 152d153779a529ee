-- ===== src/Api.antt =====
-- The routes of HTTP, with the guards before their handlers: the controllers of orders, payments, files, users,
-- products and accounts under src (orders.controller.v1.ts, payments.controller.ts, files.controller.ts,
-- users.controller.v1.ts, products.controller.v1.ts, auth.controller.ts). What passport makes of the token of a
-- request is an argument: a user, or its error.
pub mod Access
mod Tests
use e_commerce_order_platfor.Common.{
  ⊤, ℕ, String, Bool, Option, none, some, List, [], ◌∷◌, Action, Result, pure, ◌>>=◌, ◌>>◌,
}
use e_commerce_order_platfor.Database.{Uuid, EOrderStatus, Order, Payment, User, Session, Database}
use e_commerce_order_platfor.Runtime.{App}
use e_commerce_order_platfor.Auth.{ERoles, AuthUser}
use e_commerce_order_platfor.Auth.Login.{guard}
use e_commerce_order_platfor.Orders.Create.Steps.{Env as CreateEnv, CreateOrderDto}
use e_commerce_order_platfor.Orders.Create.Endpoint.{OrderResponse, post_order}
use e_commerce_order_platfor.Orders.Manage.{find_one, delete, update_status}
use e_commerce_order_platfor.Pagination.{Codec, Query, Page, find_all}
use e_commerce_order_platfor.Payments.{Desk, PayEnv, can_activate, pay_order}
use e_commerce_order_platfor.Files.{
  Env as FilesEnv, PresignFileDto, PresignedUpload, FileView, get_file_by_id,
}
use e_commerce_order_platfor.Files.Presign.{create_presigned_upload}
use e_commerce_order_platfor.Files.Complete.{complete_upload}
use e_commerce_order_platfor.Users.{
  UsersEnv, CreateUserDto, UpdateUserDto, UserResponseDto, post_user, get_by_id, update_user,
  find_all_users,
}
use e_commerce_order_platfor.Users.Accounts.{post_login}
use e_commerce_order_platfor.Products.{FindProductsQueryDto, ProductView, find_products}

pub record ApiEnv : Type 0 where
  -- What other calls commit between the read and the write of `updateStatus`.
  pub meanwhile : App → App
  pub creation : CreateEnv
  pub payments : PayEnv
  pub files : FilesEnv
  pub users : UsersEnv
  pub codec : Codec
  pub now : ℕ
  pub compare : String → String → Bool
  pub ilike : String → String → Bool

-- A request, by its route.
pub data Call : Type 0 where
  create_order : CreateOrderDto → Uuid → Call
  list_orders : Query → Call
  get_order : Uuid → Call
  set_order_status : Uuid → EOrderStatus → Call
  delete_order : Uuid → Call
  pay_for : Uuid → Call
  presign : PresignFileDto → Call
  complete : Uuid → Call
  get_file : Uuid → Call
  register : CreateUserDto → Call
  get_user : Uuid → Call
  list_users : Query → Call
  change_user : Uuid → UpdateUserDto → Call
  list_products : FindProductsQueryDto → Call
  log_in : (email password : String) → Call
  me : Call

pub data Answer : Type 0 where
  placed : OrderResponse → Answer
  orders : Page Order → Answer
  order : Order → Answer
  payment : Payment → Answer
  upload : PresignedUpload → Answer
  file : FileView → Answer
  registered : UserResponseDto → Answer
  user : User → Answer
  users : Page User → Answer
  products : Page ProductView → Answer
  token : AuthUser → Answer
  nothing : Answer

abbrev pub in_app : {A : Type 0} → Action App A → Action Desk A
in_app m w = let (r, a) = m w.app in (r, record w { app = a })

abbrev pub in_desk_session : {A : Type 0} → Action Session A → Action Desk A
in_desk_session m w =
    let (r, s) = m w.app.session in (r, record w { app = record w.app { session = s } })

-- Outside a transaction.
abbrev pub in_db : {A : Type 0} → Action Database A → Action Desk A
in_db m = in_desk_session (λ s. let (r, d) = m s.db in (r, record s { db = d }))

abbrev pub given : {A : Type 0} → Result A → Action Desk A
given r w = (r, w)

-- `@UseGuards(JwtAuthGuard, AccessGuard)`
abbrev pub access :
    Option (List ERoles) → Option (List String) → Result AuthUser → Action Desk AuthUser
access roles scopes who = do u ← given who; given (guard roles scopes (some u)); pure u

abbrev pub uploaders : Option (List ERoles)
uploaders = some (ERoles.admin ∷ ERoles.support ∷ ERoles.user ∷ [])

abbrev pub write_scopes : List String
write_scopes = "user:write" ∷ "product:write" ∷ "order:write" ∷ "payment:write" ∷ []

abbrev pub read_scopes : List String
read_scopes = "user:read" ∷ "product:read" ∷ "order:read" ∷ "payment:read" ∷ []

abbrev pub create_order_route :
    ApiEnv → Result AuthUser → CreateOrderDto → Uuid → Action Desk Answer
create_order_route env who dto key = do
  access none (some ("order:write" ∷ [])) who
  r ← in_app (post_order env.creation dto key)
  pure (placed r)

abbrev pub list_orders_route : ApiEnv → Result AuthUser → Query → Action Desk Answer
list_orders_route env who query = do
  u ← access none (some ("order:read" ∷ [])) who
  p ← in_app (λ w. (find_all env.codec u query w, w))
  pure (orders p)

abbrev pub get_order_route : ApiEnv → Result AuthUser → Uuid → Action Desk Answer
get_order_route env who i = do
  u ← access none (some ("order:read" ∷ [])) who
  o ← in_app (find_one u i)
  pure (order o)

abbrev pub set_order_status_route :
    ApiEnv → Result AuthUser → Uuid → EOrderStatus → Action Desk Answer
set_order_status_route env who i status = do
  u ← access (some (ERoles.admin ∷ [])) none who
  o ← in_app (update_status env.meanwhile env.now i status u)
  pure (order o)

abbrev pub delete_order_route : ApiEnv → Result AuthUser → Uuid → Action Desk Answer
delete_order_route env who i = do
  access (some (ERoles.admin ∷ [])) none who
  in_app (delete i)
  pure nothing

abbrev pub pay_for_route : ApiEnv → Result AuthUser → Uuid → Action Desk Answer
pay_for_route env who i = do
  u ← given who
  in_app (can_activate (some u) (some i))
  p ← pay_order env.payments i u
  pure (payment p)

abbrev pub presign_route : ApiEnv → Result AuthUser → PresignFileDto → Action Desk Answer
presign_route env who dto = do
  u ← access uploaders (some write_scopes) who
  r ← in_db (create_presigned_upload env.files u dto)
  pure (upload r)

abbrev pub complete_route : ApiEnv → Result AuthUser → Uuid → Action Desk Answer
complete_route env who i = do
  u ← access uploaders (some write_scopes) who
  v ← in_desk_session (complete_upload env.files u i)
  pure (file v)

abbrev pub get_file_route : ApiEnv → Result AuthUser → Uuid → Action Desk Answer
get_file_route env who i = do
  u ← access uploaders (some read_scopes) who
  v ← in_db (get_file_by_id env.files u i)
  pure (file v)

abbrev pub register_route : ApiEnv → Result AuthUser → CreateUserDto → Action Desk Answer
register_route env who dto = do r ← in_db (post_user env.users dto); pure (registered r)

abbrev pub get_user_route : ApiEnv → Result AuthUser → Uuid → Action Desk Answer
get_user_route env who i = do x ← in_db (get_by_id i); pure (user x)

abbrev pub list_users_route : ApiEnv → Result AuthUser → Query → Action Desk Answer
list_users_route env who query = do
  access (some (ERoles.admin ∷ ERoles.support ∷ [])) none who
  p ← in_db (find_all_users env.codec query)
  pure (users p)

abbrev pub change_user_route : ApiEnv → Result AuthUser → Uuid → UpdateUserDto → Action Desk Answer
change_user_route env who i dto = do x ← in_db (update_user i dto); pure (user x)

abbrev pub list_products_route :
    ApiEnv → Result AuthUser → FindProductsQueryDto → Action Desk Answer
list_products_route env who query = do
  p ← in_db (λ d. (find_products env.codec env.ilike query d, d))
  pure (products p)

abbrev pub log_in_route : ApiEnv → Result AuthUser → String → String → Action Desk Answer
log_in_route env who email password = do
  u ← in_app (post_login env.compare email password)
  pure (token u)

abbrev pub me_route : ApiEnv → Result AuthUser → Action Desk Answer
me_route env who = do u ← given who; pure (token u)

unfoldable pub run : ApiEnv → Result AuthUser → Call → Action Desk Answer
run env who (create_order dto key) = create_order_route env who dto key
run env who (list_orders query) = list_orders_route env who query
run env who (get_order i) = get_order_route env who i
run env who (set_order_status i status) = set_order_status_route env who i status
run env who (delete_order i) = delete_order_route env who i
run env who (pay_for i) = pay_for_route env who i
run env who (presign dto) = presign_route env who dto
run env who (complete i) = complete_route env who i
run env who (get_file i) = get_file_route env who i
run env who (register dto) = register_route env who dto
run env who (get_user i) = get_user_route env who i
run env who (list_users query) = list_users_route env who query
run env who (change_user i dto) = change_user_route env who i dto
run env who (list_products query) = list_products_route env who query
run env who (log_in email password) = log_in_route env who email password
run env who me = me_route env who
