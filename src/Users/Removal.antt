-- ===== src/Users/Removal.antt =====
-- What `remove` and `delete` of src/users/users.service.ts leave of the users and of the buyers of orders.
use e_commerce_order_platfor.Common.{
  ℕ, zero, suc, ◌≡◌, refl, ap, ◌∙◌, ◌||◌, ◌⊎◌, true, false, List, [], ◌∷◌, ok, err, any,
  delete_where, arith, Bool-cases, inl, inr, All, text, plain, ◌==◌, ==_iff,
}
use e_commerce_order_platfor.Database.{Uuid, User, Order, Database}
use e_commerce_order_platfor.Users.{has_id, is_buyer, remove_user, delete_user}

-- Each order has its buyer among the users.
abbrev pub HasBuyers : List User → List Order → Type 0
HasBuyers users orders = All (λ o. any (has_id o.user_id) users ≡ true) orders

any-delete_where_same :
    (i : Uuid) (users : List User) → any (has_id i) (delete_where (has_id i) users) ≡ false
any-delete_where_same i [] = refl
any-delete_where_same i (x ∷ xs) = ground (arith, any-delete_where_same i xs)

any-delete_where_other :
    (i j : Uuid) (users : List User)
    → (j == i) ≡ false
    → any (has_id j) (delete_where (has_id i) users) ≡ any (has_id j) users
any-delete_where_other i j [] other = refl
any-delete_where_other i j (x ∷ xs) other =
    let rest = any-delete_where_other i j xs other in
    elim (Bool-cases (x.id == i)) [
      | inl mine ↦
          let same = (==_iff x.id i).0 mine in
          let not_j : (x.id == j) ≡ false = ground arith in rw (mine, not_j) rest
      | inr others ↦ rw others (ap (λ b. x.id == j || b) rest)
    ]

HasBuyers-delete_where :
    (i : Uuid) (users : List User) (orders : List Order)
    → any (is_buyer i) orders ≡ false
    → HasBuyers users orders
    → HasBuyers (delete_where (has_id i) users) orders
HasBuyers-delete_where i users [] none_bought h = tt
HasBuyers-delete_where i users (o ∷ os) none_bought h =
    let not_o : (o.user_id == i) ≡ false = ground arith in
    let none_left : any (is_buyer i) os ≡ false = ground arith in
    (
      any-delete_where_other i o.user_id users not_o ∙ h.0,
      HasBuyers-delete_where i users os none_left h.1,
    )

-- Where each order has its buyer, `remove` leaves it so and answers without an error; the user is gone
-- where no order is of that user, and nothing changes where one is.
remove_user-HasBuyers :
    (i : Uuid) (d : Database)
    → HasBuyers d.users d.orders
    → let (r, d') = remove_user i d in
      (r ≡ ok tt)
      × HasBuyers d'.users d'.orders
      × ((any (is_buyer i) d.orders ≡ true) × (d' ≡ d) ⊎ (any (has_id i) d'.users ≡ false))
unfolding remove_user
remove_user-HasBuyers i d h = elim (Bool-cases (any (is_buyer i) d.orders)) [
  | inl bought ↦ rw bought (refl, h, inl (refl, refl))
  | inr free ↦ rw free (
    refl,
    HasBuyers-delete_where i d.users d.orders free h,
    inr (any-delete_where_same i d.users),
  )
]

-- `delete` fails whatever room the stack has, and changes nothing.
delete_user-fails :
    (depth : ℕ) (i : Uuid) (d : Database)
    → delete_user depth i d ≡ (err (plain (text "Maximum call stack size exceeded")), d)
unfolding delete_user
delete_user-fails zero i d = refl
delete_user-fails (suc depth) i d = delete_user-fails depth i d
