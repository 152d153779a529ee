-- ===== src/Common/Keyed.antt =====
-- Tables whose rows are found by a number, such as a primary key.

use mathlib.Core.Path.{◌≡◌, refl}
use mathlib.Core.Bool.{Bool, true, false}
use mathlib.Core.Option
use mathlib.Core.Option.{Option, none, some}
use mathlib.Core.List.{List, [], ◌∷◌, ◌++◌}
use native.Mathlib.Omega.{arith}
use e_commerce_order_platfor.Common.Tests.{if◌then◌else◌, is_some}
use e_commerce_order_platfor.Common.Lists.{find, any, update_where, delete_where}

module _ {ℓ} {A : Type ℓ} where
  pub find-append_some :
      (p : A → Bool) (xs ys : List A) (a : A) → find p xs ≡ some a → find p (xs ++ ys) ≡ some a
  find-append_some p [] ys a h = cc
  find-append_some p (x ∷ xs) ys a h = ground (arith, find-append_some p xs ys a)

  pub find-append_none :
      (p : A → Bool) (xs ys : List A) → find p xs ≡ none → find p (xs ++ ys) ≡ find p ys
  find-append_none p [] ys h = refl
  find-append_none p (x ∷ xs) ys h = ground (arith, find-append_none p xs ys)

  pub find_holds : (p : A → Bool) (xs : List A) (a : A) → find p xs ≡ some a → p a ≡ true
  find_holds p [] a h = cc
  find_holds p (x ∷ xs) a h = ground (arith, find_holds p xs a)

  pub any-eq-is_some-find : (p : A → Bool) (xs : List A) → any p xs ≡ is_some (find p xs)
  any-eq-is_some-find p [] = refl
  any-eq-is_some-find p (x ∷ xs) = ground (arith, any-eq-is_some-find p xs)

  pub update_where_id :
      (p : A → Bool) (f : A → A) (xs : List A) → any p xs ≡ false → update_where p f xs ≡ xs
  update_where_id p f [] h = refl
  update_where_id p f (x ∷ xs) h = ground (arith, update_where_id p f xs)

  -- An update that the test `p` does not see keeps what `p` finds, changed or not.
  pub find-update_where :
      (p q : A → Bool) (f : A → A)
      → ((x : A) → p (f x) ≡ p x)
      → (xs : List A)
      → find p (update_where q f xs) ≡ Option.map (λ x. if q x then f x else x) (find p xs)
  find-update_where p q f h [] = refl
  find-update_where p q f h (x ∷ xs) = ground (arith, h x, find-update_where p q f h xs)

  pub any-update_where :
      (p q : A → Bool) (f : A → A)
      → ((x : A) → p (f x) ≡ p x)
      → (xs : List A) → any p (update_where q f xs) ≡ any p xs
  any-update_where p q f h [] = refl
  any-update_where p q f h (x ∷ xs) = ground (arith, h x, any-update_where p q f h xs)

  -- An update that leaves its rows as they are when it is made again.
  pub update_where_twice :
      (p : A → Bool) (f : A → A)
      → ((x : A) → p (f x) ≡ p x)
      → ((x : A) → f (f x) ≡ f x)
      → (xs : List A) → update_where p f (update_where p f xs) ≡ update_where p f xs
  update_where_twice p f h k [] = refl
  update_where_twice p f h k (x ∷ xs) = ground (arith, h x, k x, update_where_twice p f h k xs)

  pub any-find : (p : A → Bool) (xs : List A) (a : A) → find p xs ≡ some a → any p xs ≡ true
  any-find p [] a h = absurd (cc)
  any-find p (x ∷ xs) a h = ground (arith, any-find p xs a)

  pub any-append_new :
      (p : A → Bool) (xs : List A) (y : A) → p y ≡ true → any p (xs ++ y ∷ []) ≡ true
  any-append_new p [] y h = ground arith
  any-append_new p (x ∷ xs) y h = ground (arith, any-append_new p xs y h)

  -- A write of one row over those that pass the test.
  pub find-set :
      (p : A → Bool) (xs : List A) (a b : A)
      → find p xs ≡ some a
      → p b ≡ true
      → find p (update_where p (λ x. b) xs) ≡ some b
  find-set p [] a b h k = absurd (cc)
  find-set p (x ∷ xs) a b h k = ground (arith, find-set p xs a b)

  pub delete_where-append_new :
      (p : A → Bool) (xs : List A) (y : A)
      → find p xs ≡ none
      → p y ≡ true
      → delete_where p (xs ++ y ∷ []) ≡ xs
  delete_where-append_new p [] y h k = ground arith
  delete_where-append_new p (x ∷ xs) y h k = ground (arith, delete_where-append_new p xs y)

  pub find-updated :
      (p : A → Bool) (f : A → A)
      → ((x : A) → p (f x) ≡ p x)
      → (xs : List A) (a : A) → find p xs ≡ some a
      → find p (update_where p f xs) ≡ some (f a)
  find-updated p f h xs a e =
      let own = find_holds p xs a e in rw (find-update_where p p f h xs, e, own) refl
