-- ===== src/Realtime/RateLimit.antt =====
-- The bound that `assertRateLimit` of src/realtime/orders.gateway.ts keeps.
use e_commerce_order_platfor.Common.{
  ⊤, ℕ, ◌+◌, ◌≤◌, ◌<◌, ◌≡◌, refl, ap, sym, ◌∙◌, Bool, true, ◌&&◌, some, List, [], ◌∷◌, ◌++◌, length,
  select, select-append, append-nil, append_assoc, length-append, Result, ok, err, inl, inr, arith,
  Bool-cases, leb, ltb, or_default,
}
use e_commerce_order_platfor.Realtime.{
  Client, assert_rate_limit, recent_calls, is_recent, max_calls, window_ms,
}

abbrev kept_if : Result ⊤ → ℕ → List ℕ → List ℕ
kept_if (ok u) t rest = t ∷ rest
kept_if (err e) t rest = rest

-- The times of the calls that are let through, of calls at the times `ts`.
abbrev pub let_through : List ℕ → Client → List ℕ
let_through [] c = []
let_through (t ∷ ts) c = let (r, c') = assert_rate_limit t c in kept_if r t (let_through ts c')

-- The clock does not run backwards.
abbrev pub Later : ℕ → List ℕ → Type 0
Later t [] = ⊤
Later t (u ∷ us) = (t ≤ u) × Later u us

-- The times from `a` on, for the length of the window.
abbrev pub in_window : ℕ → ℕ → Bool
in_window a t = leb a t && ltb t (a + window_ms)

select-within :
    (p q : ℕ → Bool)
    → ((x : ℕ) → p x ≡ true → q x ≡ true)
    → (xs : List ℕ) → select p (select q xs) ≡ select p xs
select-within p q h [] = refl
select-within p q h (x ∷ xs) = elim (Bool-cases (q x)) [
  | inl e ↦ ground (arith, select-within p q h xs)
  | inr e ↦ elim (Bool-cases (p x)) [
    | inl f ↦ let g = h x f in absurd (cc)
    | inr f ↦ ground (arith, select-within p q h xs)
  ]
]

length-select_mono :
    (p q : ℕ → Bool)
    → ((x : ℕ) → p x ≡ true → q x ≡ true)
    → (xs : List ℕ) → length (select p xs) ≤ length (select q xs)
length-select_mono p q h [] = omega arith
length-select_mono p q h (x ∷ xs) = elim (Bool-cases (p x)) [
  | inl e ↦ let f = h x e in ground (arith, length-select_mono p q h xs)
  | inr e ↦ ground (arith, length-select_mono p q h xs)
]

-- What the stored calls still know of the calls that were let through.
abbrev Remembers : ℕ → List ℕ → Client → Type 0
Remembers now passed c =
    (u : ℕ)
    → now ≤ u
    → select (is_recent u) passed ≡ select (is_recent u) (or_default c.subscribe_calls [])

abbrev Bounded : List ℕ → Type 0
Bounded passed = (a : ℕ) → length (select (in_window a) passed) ≤ max_calls

refused_step :
    (t now : ℕ) (passed : List ℕ) (c : Client)
    → now ≤ t
    → Remembers now passed c
    → Remembers t passed (record c { subscribe_calls = some (recent_calls t c.subscribe_calls) })
refused_step t now passed c h remembers u later =
    remembers u (omega arith)
    ∙ sym (
        select-within (is_recent u) (is_recent t) (λ x e. ground arith)
          (or_default c.subscribe_calls []))

passed_step :
    (t now : ℕ) (passed : List ℕ) (c : Client)
    → now ≤ t
    → Remembers now passed c
    → Remembers t
        (passed ++ t ∷ [])
        (record c { subscribe_calls = some (recent_calls t c.subscribe_calls ++ t ∷ []) })
passed_step t now passed c h remembers u later =
    rw
      (
        select-append (is_recent u) passed (t ∷ []),
        select-append (is_recent u) (recent_calls t c.subscribe_calls) (t ∷ []),
      )
      (ap (λ xs. xs ++ select (is_recent u) (t ∷ []))
        (refused_step t now passed c h remembers u later))

passed-Bounded :
    (t now : ℕ) (passed : List ℕ) (c : Client)
    → now ≤ t
    → Remembers now passed c
    → length (recent_calls t c.subscribe_calls) < max_calls
    → Bounded passed
    → Bounded (passed ++ t ∷ [])
passed-Bounded t now passed c h remembers room bounded a = elim (Bool-cases (in_window a t)) [
  | inr out ↦
      rw (select-append (in_window a) passed (t ∷ []), out)
        (ground (arith, bounded a, append-nil (select (in_window a) passed)))
  | inl inside ↦
      let fewer = length-select_mono (in_window a) (is_recent t) (λ x e. ground arith) passed in
      let same = ap (λ xs. length xs) (remembers t h) in
      rw (select-append (in_window a) passed (t ∷ []), inside)
        (ground (arith, fewer, same, length-append (select (in_window a) passed) (t ∷ [])))
]

rate_limited_from :
    (ts : List ℕ) (now : ℕ) (passed : List ℕ) (c : Client)
    → Later now ts
    → Remembers now passed c
    → Bounded passed
    → Bounded (passed ++ let_through ts c)
unfolding assert_rate_limit
rate_limited_from [] now passed c later remembers bounded = rw (append-nil passed) bounded
rate_limited_from (t ∷ ts) now passed c later remembers bounded =
    elim (Bool-cases (leb max_calls (length (recent_calls t c.subscribe_calls)))) [
      | inl full ↦ rw full (
          rate_limited_from ts t passed
            (record c { subscribe_calls = some (recent_calls t c.subscribe_calls) }) later.1
            (refused_step t now passed c later.0 remembers) bounded)
      | inr room ↦
          let c' = record c {
            subscribe_calls = some (recent_calls t c.subscribe_calls ++ t ∷ []);
          } in
          rw (room, ← append_assoc passed (t ∷ []) (let_through ts c'))
            (rate_limited_from ts t (passed ++ t ∷ []) c' later.1
              (passed_step t now passed c later.0 remembers)
              (passed-Bounded t now passed c later.0 remembers (ground arith) bounded))
    ]

-- Of the calls of a client that has just connected, however many and at whatever times, at most five are
-- let through in any 3000 milliseconds, where the clock does not run backwards.
pub rate_limit_holds :
    (ts : List ℕ) (now : ℕ) (c : Client) (a : ℕ)
    → Later now ts
    → or_default c.subscribe_calls [] ≡ []
    → length (select (in_window a) (let_through ts c)) ≤ max_calls
rate_limit_holds ts now c a later fresh =
    rate_limited_from ts now [] c later (λ u h. rw fresh refl) (λ b. omega arith) a
