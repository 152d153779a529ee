-- ===== src/Common/Keys.antt =====
-- Tables with a unique key: no two rows pass the test `same`.
use mathlib.Core.Path.{◌≡◌}
use mathlib.Core.Logic.{inl, inr}
use mathlib.Core.Bool.{Bool, false}
use mathlib.Core.List.{List, [], ◌∷◌, ◌++◌}
use native.Mathlib.Omega.{arith}
use e_commerce_order_platfor.Common.Tests.{Bool-cases}
use e_commerce_order_platfor.Common.Lists.{any, update_where, All, All-append}

module _ {ℓ} {A : Type ℓ} where
  abbrev pub Distinct : (A → A → Bool) → List A → Type 0
  Distinct same [] = Unit
  Distinct same (x ∷ xs) = All (λ y. same x y ≡ false) xs × Distinct same xs

  any-eq-false→All : (p : A → Bool) (xs : List A) → any p xs ≡ false → All (λ x. p x ≡ false) xs
  any-eq-false→All p [] h = tt
  any-eq-false→All p (x ∷ xs) h = (ground arith, any-eq-false→All p xs (ground arith))

  module _ (same : A → A → Bool) (swap : (x y : A) → same x y ≡ same y x) where
    pub Distinct-append_new :
        (x : A) (xs : List A)
        → any (same x) xs ≡ false
        → Distinct same xs
        → Distinct same (xs ++ x ∷ [])
    Distinct-append_new x [] h d = (tt, tt)
    Distinct-append_new x (y ∷ xs) h d = (
      All-append (λ z. same y z ≡ false) xs (x ∷ []) d.0 (ground (arith, swap x y), tt),
      Distinct-append_new x xs (ground arith) d.1,
    )

    All-update_where :
        (p : A → Bool) (f : A → A)
        → ((x y : A) → same x (f y) ≡ same x y)
        → (x : A) (xs : List A) → All (λ y. same x y ≡ false) xs
        → All (λ y. same x y ≡ false) (update_where p f xs)
    All-update_where p f keeps x [] h = tt
    All-update_where p f keeps x (y ∷ xs) h =
        (ground (arith, keeps x y), All-update_where p f keeps x xs h.1)

    All-changed :
        (f : A → A)
        → ((x y : A) → same x (f y) ≡ same x y)
        → (x : A) (xs : List A) → All (λ y. same x y ≡ false) xs
        → All (λ y. same (f x) y ≡ false) xs
    All-changed f keeps x [] h = tt
    All-changed f keeps x (y ∷ xs) h =
        (ground (arith, swap (f x) y, keeps y x, swap x y), All-changed f keeps x xs h.1)

    -- An update that leaves the key alone.
    pub Distinct-update_where :
        (p : A → Bool) (f : A → A)
        → ((x y : A) → same x (f y) ≡ same x y)
        → (xs : List A) → Distinct same xs
        → Distinct same (update_where p f xs)
    Distinct-update_where p f keeps [] d = tt
    Distinct-update_where p f keeps (x ∷ xs) d =
        let rest = Distinct-update_where p f keeps xs d.1 in
        let apart = All-update_where p f keeps x xs d.0 in
        elim (Bool-cases (p x)) [
          | inl e ↦ rw e (All-changed f keeps x (update_where p f xs) apart, rest)
          | inr e ↦ rw e (apart, rest)
        ]
