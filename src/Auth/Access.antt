-- ===== src/Auth/Access.antt =====
-- What a login grants (src/auth/auth.service.ts, src/auth/guards/access.guard.ts).
use package.text.Mathlib.Text.{◌==◌ as str_eq}
use package.text.Mathlib.TextEquality.{eq_iff}
use e_commerce_order_platfor.Common.{
  ◌≡◌, refl, ap, sym, ◌∙◌, String, Bool, true, none, some, List, [], ◌∷◌, ◌++◌, ok, err, text,
  unauthorized, find, any, inl, inr, ◌⊎◌, arith, Bool-cases, Option-cases,
}
use e_commerce_order_platfor.Database.{User}
use e_commerce_order_platfor.Runtime.{App, AuditEvent, auth_login_failed}
use e_commerce_order_platfor.Auth.{ERoles, AuthUser}
use e_commerce_order_platfor.Auth.Login.{
  role_of, check_array_to_enum, roles_of, safe_user, login_failed, validate_user, login, same_role,
  guard,
}

-- Every login ends in one of two ways: with the payload of the user who has the email, whose stored hash
-- accepts the password, and nothing is written; or with one and the same 401, whether the email or the
-- password was wrong, and exactly one new line of audit, of a failed login.
login_outcome :
    (compare : String → String → Bool) (email password : String) (w : App)
    → ((user : User) × (h : String) × (find (λ x. str_eq x.email email) w.session.db.users
          ≡ some user)
        × (user.password_hash ≡ some h)
        × (compare password h ≡ true)
        × (login compare email password w ≡ (ok (safe_user user), w)))
      ⊎ ((e : AuditEvent) × (e.action ≡ auth_login_failed)
          × (login compare email password w ≡ (
            err (unauthorized (text "Invalid email or password")),
            record w { audit = w.audit ++ e ∷ [] },
          )))
unfolding login validate_user
login_outcome compare email password w =
    elim (Option-cases (find (λ x. str_eq x.email email) w.session.db.users)) [
      | inl nobody ↦ inr (login_failed none "auth_identity", refl, ground arith)
      | inr (user, found) ↦ elim (Option-cases user.password_hash) [
        | inl unset ↦ inr (login_failed none "auth_identity", refl, ground arith)
        | inr (h, hash) ↦ elim (Bool-cases (str_eq h "")) [
          | inl empty ↦ inr (login_failed none "auth_identity", refl, ground arith)
          | inr filled ↦ elim (Bool-cases (compare password h)) [
            | inl matches ↦ inl (user, h, found, hash, matches, ground arith)
            | inr differs ↦ inr (login_failed (some user.id) "user", refl, ground arith)
          ]
        ]
      ]
    ]

same_role_refl : (r : ERoles) → same_role r r ≡ true
same_role_refl ERoles.admin = refl
same_role_refl ERoles.owner = refl
same_role_refl ERoles.support = refl
same_role_refl ERoles.user = refl

any-roles_of :
    (s : String) (r : ERoles) (ss : List String)
    → role_of s ≡ some r
    → any (str_eq s) ss ≡ true
    → any (same_role r) (roles_of ss) ≡ true
any-roles_of s r [] e h = absurd (cc)
any-roles_of s r (t ∷ ss) e h = elim (Bool-cases (str_eq s t)) [
  | inl same ↦
      let known : role_of t ≡ some r = ap role_of (sym ((eq_iff s t).0 same)) ∙ e in
      rw known (ground (arith, same_role_refl r))
  | inr other ↦
      let rest = any-roles_of s r ss e (ground arith) in
      elim (Option-cases (role_of t)) [
        | inl unknown ↦ rw unknown rest
        | inr (q, known) ↦ rw known (ground (arith, rest))
      ]
]

-- A user whose roles are all known, and who has a role, passes the guard of every route that requires
-- this role or others and no scope, with the payload that the login signed.
logged_in_passes :
    (compare : String → String → Bool) (email password s : String) (r : ERoles)
    (others : List ERoles) (user : User) (u : AuthUser) (w : App)
    → find (λ x. str_eq x.email email) w.session.db.users ≡ some user
    → check_array_to_enum user.roles ≡ true
    → role_of s ≡ some r
    → any (str_eq s) user.roles ≡ true
    → (login compare email password w).0 ≡ ok u
    → guard (some (r ∷ others)) none (some u) ≡ ok true
unfolding guard
logged_in_passes compare email password s r others user u w found known role has logged =
    elim (login_outcome compare email password w) [
      | inr (e, failed, refused) ↦ absurd (ground arith)
      | inl (user', h, found', hash, matches, signed) ↦
          let same : u ≡ safe_user user = ground arith in
          let granted = any-roles_of s r user.roles role has in rw (same, known, granted) refl
    ]
