-- ===== src/Api/Access.antt =====
-- Who may change what through the routes of src (the guards are those of src/auth/guards/access.guard.ts and
-- src/payments/guards/can-pay.guard.ts).
use package.text.Mathlib.Text.{◌==◌ as str_eq}
use e_commerce_order_platfor.Common.{
  ⊤, ◌≡◌, refl, String, Bool, true, ◌&&◌, ◌||◌, some, [], ◌∷◌, any, find, Result, ok, err, inl, inr,
  ◌⊎◌, arith, Option-cases, Bool-cases, ◌==◌,
}
use e_commerce_order_platfor.Database.{Uuid, Order}
use e_commerce_order_platfor.Auth.{ERoles, AuthUser, some_of}
use e_commerce_order_platfor.Auth.Login.{guard, same_role}
use e_commerce_order_platfor.Orders.Create.Steps.{CreateOrderDto}
use e_commerce_order_platfor.Orders.Manage.{has_id, orders_of, find_one}
use e_commerce_order_platfor.Payments.{Desk, is_support_or_admin, can_activate}
use e_commerce_order_platfor.Files.{get_file_by_id}
use e_commerce_order_platfor.Users.{get_by_id, find_all_users}
use e_commerce_order_platfor.Api.{
  ApiEnv, Call, create_order, list_orders, get_order, set_order_status, delete_order, pay_for,
  presign, complete, get_file, register, get_user, list_users, change_user, list_products, log_in,
  me, run,
}

abbrev pub has_scope : AuthUser → String → Bool
has_scope u s = some_of (λ t. str_eq s t) u.scopes

abbrev pub has_role : AuthUser → ERoles → Bool
has_role u r = some_of (same_role r) u.roles

-- Who may pay for an order: its buyer, and staff with the scope.
abbrev pub may_pay : AuthUser → Order → Bool
may_pay u o =
    o.user_id == u.sub
    || (some_of is_support_or_admin u.roles && some_of (λ s. str_eq s "payment:write") u.scopes)

abbrev pub may_upload : AuthUser → Bool
may_upload u =
    any (has_role u) (ERoles.admin ∷ ERoles.support ∷ ERoles.user ∷ [])
    && any (has_scope u) ("user:write" ∷ "product:write" ∷ "order:write" ∷ "payment:write" ∷ [])

abbrev pub UserMayChange : AuthUser → Call → Desk → Type 0
UserMayChange u (create_order dto key) w = has_scope u "order:write" ≡ true
UserMayChange u (set_order_status i s) w = has_role u ERoles.admin ≡ true
UserMayChange u (delete_order i) w = has_role u ERoles.admin ≡ true
UserMayChange u (pay_for i) w =
    (o : Order) × (find (has_id i) (orders_of w.app) ≡ some o) × (may_pay u o ≡ true)
UserMayChange u (presign dto) w = may_upload u ≡ true
UserMayChange u (complete i) w = may_upload u ≡ true
UserMayChange u (register dto) w = ⊤
UserMayChange u (change_user i dto) w = ⊤
UserMayChange u (log_in email password) w = ⊤
UserMayChange u call w = ⊥

-- Without a user there is nothing to read from the token.
abbrev pub MayChange : Result AuthUser → Call → Desk → Type 0
MayChange (ok u) call w = UserMayChange u call w
MayChange (err e) (register dto) w = ⊤
MayChange (err e) (change_user i dto) w = ⊤
MayChange (err e) (log_in email password) w = ⊤
MayChange (err e) call w = ⊥

reads_order :
    (env : ApiEnv) (u : AuthUser) (i : Uuid) (w : Desk) → (run env (ok u) (get_order i) w).1 ≡ w
unfolding run find_one guard
reads_order env u i w = ground arith

reads_file :
    (env : ApiEnv) (u : AuthUser) (i : Uuid) (w : Desk) → (run env (ok u) (get_file i) w).1 ≡ w
unfolding run get_file_by_id guard
reads_file env u i w = ground arith

reads_user :
    (env : ApiEnv) (who : Result AuthUser) (i : Uuid) (w : Desk)
    → (run env who (get_user i) w).1 ≡ w
unfolding run get_by_id
reads_user env who i w = ground arith

user_changes :
    (env : ApiEnv) (u : AuthUser) (call : Call) (w : Desk)
    → UserMayChange u call w ⊎ ((run env (ok u) call w).1 ≡ w)
unfolding run guard can_activate find_all_users
user_changes env u (create_order dto key) w = elim (Bool-cases (has_scope u "order:write")) [
  | inl may ↦ inl may
  | inr other ↦ inr (ground arith)
]
user_changes env u (list_orders query) w = inr (ground arith)
user_changes env u (get_order i) w = inr (reads_order env u i w)
user_changes env u (set_order_status i s) w = elim (Bool-cases (has_role u ERoles.admin)) [
  | inl may ↦ inl may
  | inr other ↦ inr (ground arith)
]
user_changes env u (delete_order i) w = elim (Bool-cases (has_role u ERoles.admin)) [
  | inl may ↦ inl may
  | inr other ↦ inr (ground arith)
]
user_changes env u (pay_for i) w = elim (Option-cases (find (has_id i) (orders_of w.app))) [
  | inl missing ↦ inr (ground arith)
  | inr (o, found) ↦ elim (Bool-cases (may_pay u o)) [
    | inl may ↦ inl (o, found, may)
    | inr other ↦ inr (ground arith)
  ]
]
user_changes env u (presign dto) w = elim (Bool-cases (may_upload u)) [
  | inl may ↦ inl may
  | inr other ↦ inr (ground arith)
]
user_changes env u (complete i) w = elim (Bool-cases (may_upload u)) [
  | inl may ↦ inl may
  | inr other ↦ inr (ground arith)
]
user_changes env u (get_file i) w = inr (reads_file env u i w)
user_changes env u (register dto) w = inl tt
user_changes env u (get_user i) w = inr (reads_user env (ok u) i w)
user_changes env u (list_users query) w = inr (ground arith)
user_changes env u (change_user i dto) w = inl tt
user_changes env u (list_products query) w = inr (ground arith)
user_changes env u (log_in email password) w = inl tt
user_changes env u me w = inr refl

-- Whatever is asked of the API, by whomever: either the caller may change something by it (an order is created
-- with the scope order:write; a status is set and an order deleted by an admin; an order is paid by its buyer, or by
-- staff with the scope payment:write; a file is uploaded with one of three roles and one of four write scopes;
-- accounts are created and changed, and a login is tried, by anybody), or nothing at all changes: no table, no
-- counter, no line of audit, no event.
pub changes_are_allowed :
    (env : ApiEnv) (who : Result AuthUser) (call : Call) (w : Desk)
    → MayChange who call w ⊎ ((run env who call w).1 ≡ w)
unfolding run
changes_are_allowed env (ok u) call w = user_changes env u call w
changes_are_allowed env (err e) (create_order dto key) w = inr refl
changes_are_allowed env (err e) (list_orders query) w = inr refl
changes_are_allowed env (err e) (get_order i) w = inr refl
changes_are_allowed env (err e) (set_order_status i s) w = inr refl
changes_are_allowed env (err e) (delete_order i) w = inr refl
changes_are_allowed env (err e) (pay_for i) w = inr refl
changes_are_allowed env (err e) (presign dto) w = inr refl
changes_are_allowed env (err e) (complete i) w = inr refl
changes_are_allowed env (err e) (get_file i) w = inr refl
changes_are_allowed env (err e) (register dto) w = inl tt
changes_are_allowed env (err e) (get_user i) w = inr (reads_user env (err e) i w)
changes_are_allowed env (err e) (list_users query) w = inr refl
changes_are_allowed env (err e) (change_user i dto) w = inl tt
changes_are_allowed env (err e) (list_products query) w = inr (ground arith)
changes_are_allowed env (err e) (log_in email password) w = inl tt
changes_are_allowed env (err e) me w = inr refl

-- The caller of a route that creates an order is not read beyond the scope: whoever has it creates the same
-- order, for the user that the request names.
creates_for_others :
    (env : ApiEnv) (u v : AuthUser) (dto : CreateOrderDto) (key : Uuid) (w : Desk)
    → has_scope u "order:write" ≡ true
    → has_scope v "order:write" ≡ true
    → run env (ok u) (create_order dto key) w ≡ run env (ok v) (create_order dto key) w
unfolding run guard
creates_for_others env u v dto key w a b = ground arith
