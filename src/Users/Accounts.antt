-- ===== src/Users/Accounts.antt =====
-- Who can log in after the calls of src/users/users.service.ts.
use package.text.Mathlib.Text.{◌==◌ as str_eq}
use package.text.Mathlib.TextEquality.{eq_iff}
use e_commerce_order_platfor.Common.{
  ◌≡◌, refl, ap, ◌∙◌, String, Bool, true, false, none, some, List, [], ◌∷◌, Result, ok, err, find,
  any, inl, inr, arith, Bool-cases, Option-cases, unauthorized, text, update_where,
  any-eq-is_some-find, find-append_none, is_some, any-find, update_where_id, find-updated,
}
use e_commerce_order_platfor.Database.{Uuid, User, Database}
use e_commerce_order_platfor.Runtime.{App}
use e_commerce_order_platfor.Auth.{AuthUser}
use e_commerce_order_platfor.Auth.Login.{login, validate_user}
use e_commerce_order_platfor.Files.Text.{trim}
use e_commerce_order_platfor.Users.{
  CreateUserDto, UpdateUserDto, UserResponseDto, UsersEnv, normal_email, transformed, has_email,
  has_id, new_user, create_user, post_user, update_user, with_fields,
}

-- `POST /auth/login`, whose DTO changes the email and leaves the password.
abbrev pub post_login : (String → String → Bool) → String → String → App → Result AuthUser × App
post_login compare email password w = login compare (normal_email email) password w

abbrev pub on_users : App → Database → App
on_users w d = record w { session = record w.session { db = d } }

create_user_found :
    (env : UsersEnv) (dto : CreateUserDto) (d : Database) (v : UserResponseDto)
    → (create_user env dto d).0 ≡ ok v
    → find (has_email dto.email) (create_user env dto d).1.users ≡ some (new_user env dto)
unfolding create_user
create_user_found env dto d v made =
    let self : str_eq dto.email dto.email ≡ true = (eq_iff dto.email dto.email).1 refl in
    elim (Option-cases (find (has_email dto.email) d.users)) [
      | inl free ↦
          let unused : any (has_email dto.email) d.users ≡ false =
            any-eq-is_some-find (has_email dto.email) d.users ∙ ap (λ x. is_some x) free in
          let last = find-append_none (has_email dto.email) d.users (new_user env dto ∷ []) free in
          rw (unused, last, self) refl
      | inr (x, taken) ↦
          let closed = any-find (has_email dto.email) d.users x taken in absurd (ground arith)
    ]

-- Where bcrypt accepts a password against its own hash, which is not empty: who registers can log in, with the email
-- as it was typed and the password without the spaces at its ends, as the new user, with no role and no scope.
pub registered_logs_in :
    (compare : String → String → Bool) (env : UsersEnv) (dto : CreateUserDto) (w : App)
    (v : UserResponseDto)
    → compare (trim dto.password) (env.hash (trim dto.password)) ≡ true
    → str_eq (env.hash (trim dto.password)) "" ≡ false
    → (post_user env dto w.session.db).0 ≡ ok v
    → (post_login compare dto.email
        (trim dto.password)
        (on_users w (post_user env dto w.session.db).1)).0
      ≡ ok (record { sub = env.new_id; roles = some []; scopes = some [] })
unfolding login validate_user post_user
registered_logs_in compare env dto w v accepts filled made =
    let found = create_user_found env (transformed dto) w.session.db v made in
    rw (found, filled, accepts) refl

find-updated_email :
    (i : Uuid) (dto : UpdateUserDto) (e s : String) (xs : List User)
    → dto.email ≡ some e
    → str_eq e s ≡ false
    → find (has_email s) xs ≡ none
    → find (has_email s) (update_where (has_id i) (with_fields dto) xs) ≡ none
find-updated_email i dto e s [] given other free = refl
find-updated_email i dto e s (x ∷ xs) given other free =
    let rest = find-updated_email i dto e s xs given other in
    elim (Bool-cases (has_id i x)) [
      | inl mine ↦ ground (arith, rest)
      | inr others ↦ ground (arith, rest)
    ]

-- Where an update gives a user an email that the route of the login changes (it has a capital letter, or a space
-- at an end), and the changed email is no user's: nobody can log in with the email as it was set, whatever
-- the password.
pub updated_email_locks_out :
    (compare : String → String → Bool) (i : Uuid) (dto : UpdateUserDto) (e password : String)
    (w : App) (x : User)
    → dto.email ≡ some e
    → str_eq e (normal_email e) ≡ false
    → find (has_email (normal_email e)) w.session.db.users ≡ none
    → (update_user i dto w.session.db).0 ≡ ok x
    → (x.email ≡ e)
      × ((post_login compare e password (on_users w (update_user i dto w.session.db).1)).0
          ≡ err (unauthorized (text "Invalid email or password")))
unfolding login validate_user update_user
updated_email_locks_out compare i dto e password w x given differs free done =
    let gone = find-updated_email i dto e (normal_email e) w.session.db.users given differs free in
    elim (Option-cases (find (has_id i) w.session.db.users)) [
      | inl unknown ↦
          let absent =
            any-eq-is_some-find (has_id i) w.session.db.users ∙ ap (λ y. is_some y) unknown in
          let same = update_where_id (has_id i) (with_fields dto) w.session.db.users absent in
          absurd (ground arith)
      | inr (y, there) ↦
          let set =
            find-updated (has_id i) (with_fields dto) (λ q. refl) w.session.db.users y there in
          (ground arith, ground (arith, gone))
    ]
