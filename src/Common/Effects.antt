-- ===== src/Common/Effects.antt =====
-- Exceptions as values, and the calls that change a state and may throw. What a call wrote before
-- it threw stays written: only a rollback undoes it.
use Prim.Native.Nat.{ℕ}
use Prim.Native.String.{String}
use mathlib.Core.Path.{◌≡◌, refl}
use mathlib.Core.Logic.{◌⊎◌, inl, inr}
use mathlib.Core.Bool.{Bool}
use mathlib.Core.Option.{Option, none, some}
use e_commerce_order_platfor.Common.Tests.{⊤, if◌then◌else◌}

-- The text of an error: a literal, or a template with one id in it.
pub data Message : Type 0 where
  text : String → Message
  about : String → ℕ → String → Message

-- What the program throws or lets through. The first seven are the framework's HTTP exceptions;
-- `plain` is `new Error`, `timeout_error` is rxjs's, and `coded` is an error object that has a
-- `code` field: a gRPC status, or the SQLSTATE of the database driver.
pub data Exception : Type 0 where
  bad_request conflict forbidden not_found unauthorized gateway_timeout service_unavailable :
      Message → Exception
  plain : Message → Exception
  timeout_error : Exception
  coded : String → Exception

pub data Result (A : Type 0) : Type 0 where
  ok : A → Result A
  err : Exception → Result A

-- A call over a state `S`.
abbrev pub Action : Type 0 → Type 0 → Type 0
Action S A = S → Result A × S

module _ {S : Type 0} where
  abbrev pub pure : {A : Type 0} → A → Action S A
  pure a s = (ok a, s)

  -- `throw e`
  abbrev pub throw : {A : Type 0} → Exception → Action S A
  throw e s = (err e, s)

  abbrev pub gets : {A : Type 0} → (S → A) → Action S A
  gets f s = (ok (f s), s)

  abbrev pub modify : (S → S) → Action S ⊤
  modify f s = (ok tt, f s)

  -- What follows a call, by how it ended.
  abbrev pub then_do : {A B : Type 0} → (A → Action S B) → Result A → Action S B
  then_do f (ok a) s = f a s
  then_do f (err e) s = (err e, s)

  -- `if (c) throw e`
  abbrev pub throw_if : Bool → Exception → Action S ⊤
  throw_if c e s = (if c then err e else ok tt, s)

  abbrev pub or_throw : {A : Type 0} → Option A → Exception → Action S A
  or_throw none e s = (err e, s)
  or_throw (some a) e s = (ok a, s)

  abbrev pub caught : {A : Type 0} → (Exception → Action S A) → Result A → Action S A
  caught h (ok a) s = (ok a, s)
  caught h (err e) s = h e s

  -- `try { m } catch (e) { h(e) }`
  abbrev pub try_catch : {A : Type 0} → Action S A → (Exception → Action S A) → Action S A
  try_catch m h s = let (r, s') = m s in caught h r s'

  -- `try { m } finally { f }`, where `f` cannot throw.
  abbrev pub finally : {A : Type 0} → Action S A → (S → S) → Action S A
  finally m f s = let (r, s') = m s in (r, f s')

infixl 5 ◌>>=◌ ◌>>◌
abbrev pub ◌>>=◌ : {S A B : Type 0} → Action S A → (A → Action S B) → Action S B
◌>>=◌ m f s = let (r, s') = m s in then_do f r s'

abbrev pub ◌>>◌ : {S A B : Type 0} → Action S A → Action S B → Action S B
m >> k = m >>= λ _. k

pub Result-cases :
    {A : Type 0} (r : Result A) → ((a : A) × (r ≡ ok a)) ⊎ ((e : Exception) × (r ≡ err e))
Result-cases (ok a) = inl (a, refl)
Result-cases (err e) = inr (e, refl)

-- A sequence that succeeded, taken apart.
pub bind-eq-ok :
    {S A B : Type 0} (m : Action S A) (f : A → Action S B) (s s' : S) (b : B)
    → (m >>= f) s ≡ (ok b, s')
    → (a : A) × (t : S) × (m s ≡ (ok a, t)) × (f a t ≡ (ok b, s'))
bind-eq-ok {S} {A} {B} m f s s' b h = go (m s).0 (m s).1 refl h
  where
    go :
        (r : Result A) (t : S)
        → m s ≡ (r, t)
        → then_do f r t ≡ (ok b, s')
        → (a : A) × (t : S) × (m s ≡ (ok a, t)) × (f a t ≡ (ok b, s'))
    go (ok a) t e k = (a, t, e, k)
    go (err x) t e k = absurd (cc)

pub then-eq-ok :
    {S A B : Type 0} (m : Action S A) (k : Action S B) (s s' : S) (b : B)
    → (m >> k) s ≡ (ok b, s')
    → (a : A) × (t : S) × (m s ≡ (ok a, t)) × (k t ≡ (ok b, s'))
then-eq-ok m k s s' b h = bind-eq-ok m (λ _. k) s s' b h
