-- ===== src/Orders/Manage/Versions.antt =====
-- The announcements of src/orders/orders.service.ts over changes of status that run one after another.
use e_commerce_order_platfor.Common.{
  ℕ, ◌+◌, ◌≡◌, refl, sym, ap, ◌∙◌, Bool, true, false, some, List, [], ◌∷◌, ◌++◌, find, select,
  select-append, append-nil, append_assoc, inl, inr, arith, Bool-cases, Option-cases, find_holds,
  update_where, ◌==◌, any-find, any, subst, ◌⊎◌,
}
use e_commerce_order_platfor.Database.{Uuid, EOrderStatus, Order, same_status}
use e_commerce_order_platfor.Runtime.{App, OrderStatusChangedEvent}
use e_commerce_order_platfor.Auth.{AuthUser, is_staff}
use e_commerce_order_platfor.Orders.Manage.{
  has_id, orders_of, on_orders, update_status, with_status, status_event,
}
use e_commerce_order_platfor.Orders.Processor.{as_processed}
use e_commerce_order_platfor.Orders.Manage.Access.{update_status_lem}

pub record StatusCall : Type 0 where
  pub now : ℕ
  pub order_id : Uuid
  pub status : EOrderStatus
  pub user : AuthUser

abbrev pub run_call : StatusCall → App → App
run_call c w = (update_status (λ x. x) c.now c.order_id c.status c.user w).1

-- What writes the status of an order that exists: a call of `updateStatus`, or the UPDATE of the processor,
-- which gives the order no version and announces nothing.
pub data StatusWrite : Type 0 where
  by_call : StatusCall → StatusWrite
  by_processor : ℕ → Uuid → StatusWrite

abbrev pub run_write : StatusWrite → App → App
run_write (by_call c) w = run_call c w
run_write (by_processor now i) w = on_orders (update_where (has_id i) (as_processed now)) w

abbrev pub run_writes : List StatusWrite → App → App
run_writes [] w = w
run_writes (c ∷ cs) w = run_writes cs (run_write c w)

abbrev pub event_of : Uuid → OrderStatusChangedEvent → Bool
event_of k e = e.order_id == k

-- The status was left as it is announced, or the processor has come between.
abbrev pub Follows : EOrderStatus → EOrderStatus → Type 0
Follows s s' = (s' ≡ s) ⊎ (s' ≡ EOrderStatus.processed)

-- A sequence of events leads from one status and version to another: each event has the next version, and
-- starts from the status where the one before it ended, or from `processed`.
abbrev pub Chain : EOrderStatus → ℕ → List OrderStatusChangedEvent → EOrderStatus → ℕ → Type 0
Chain s v [] s' v' = Follows s s' × (v' ≡ v)
Chain s v (e ∷ es) s' v' =
    Follows s e.from_status × (e.version ≡ v + 1) × Chain e.to_status e.version es s' v'

Chain-processed :
    (s : EOrderStatus) (v : ℕ) (es : List OrderStatusChangedEvent) (s' : EOrderStatus) (v' : ℕ)
    → Chain EOrderStatus.processed v es s' v'
    → Chain s v es s' v'
Chain-processed s v [] s' v' (inl e, k) = (inr e, k)
Chain-processed s v [] s' v' (inr e, k) = (inr e, k)
Chain-processed s v (x ∷ es) s' v' (inl e, k, h) = (inr e, k, h)
Chain-processed s v (x ∷ es) s' v' (inr e, k, h) = (inr e, k, h)

Chain-append :
    (s : EOrderStatus) (v : ℕ) (es : List OrderStatusChangedEvent) (s' : EOrderStatus) (v' : ℕ)
    (fs : List OrderStatusChangedEvent) (s'' : EOrderStatus) (v'' : ℕ)
    → Chain s v es s' v'
    → Chain s' v' fs s'' v''
    → Chain s v (es ++ fs) s'' v''
Chain-append s v [] s' v' fs s'' v'' (inl e, h) k = rw (← e, ← h) k
Chain-append s v [] s' v' fs s'' v'' (inr e, h) k =
    let start : Chain EOrderStatus.processed v' fs s'' v'' =
      subst (λ x. Chain x v' fs s'' v'') e k in
    rw (← h) (Chain-processed s v' fs s'' v'' start)
Chain-append s v (e ∷ es) s' v' fs s'' v'' h k =
    (h.0, h.1, Chain-append e.to_status e.version es s' v' fs s'' v'' h.2 k)

pub find-present :
    (i : Uuid) (p : Order) (os : List Order)
    → find (has_id i) os ≡ some p
    → any (has_id p.id) os ≡ true
find-present i p os found =
    let same : p.id ≡ i = ground (arith, find_holds (has_id i) os p found) in
    rw same (any-find (has_id i) os p found)

replaced_other :
    (k : Uuid) (saved : Order) (os : List Order)
    → (saved.id == k) ≡ false
    → find (has_id k) (update_where (has_id saved.id) (λ o. saved) os) ≡ find (has_id k) os
replaced_other k saved [] h = refl
replaced_other k saved (o ∷ os) h = ground (arith, replaced_other k saved os h)

pub replaced_same :
    (k : Uuid) (saved o : Order) (os : List Order)
    → (saved.id == k) ≡ true
    → find (has_id k) os ≡ some o
    → find (has_id k) (update_where (has_id saved.id) (λ o. saved) os) ≡ some saved
replaced_same k saved o [] h e = absurd (cc)
replaced_same k saved o (x ∷ os) h e = ground (arith, replaced_same k saved o os h)

abbrev Announced : Uuid → Order → App → App → Type 0
Announced k o w w' =
    (new : List OrderStatusChangedEvent) × (o' : Order) × (w'.status_changes
      ≡ w.status_changes ++ new)
    × (find (has_id k) (orders_of w') ≡ some o')
    × Chain o.status o.status_version (select (event_of k) new) o'.status o'.status_version

unchanged :
    (k : Uuid) (o : Order) (w w' : App)
    → find (has_id k) (orders_of w) ≡ some o
    → w' ≡ w
    → Announced k o w w'
unchanged k o w w' here e = rw e ([], o, sym (append-nil w.status_changes), here, (inl refl, refl))

run_call-Announced :
    (c : StatusCall) (w : App) (k : Uuid) (o : Order)
    → find (has_id k) (orders_of w) ≡ some o
    → Announced k o w (run_call c w)
run_call-Announced c w k o here =
    let run = ap (λ r. r.1) (update_status_lem (λ x. x) c.now c.order_id c.status c.user w) in
    elim (Bool-cases (is_staff c.user.roles)) [
      | inr barred ↦ unchanged k o w (run_call c w) here (run ∙ rw (barred) refl)
      | inl able ↦ elim (Option-cases (find (has_id c.order_id) (orders_of w))) [
        | inl missing ↦ unchanged k o w (run_call c w) here (run ∙ rw (able, missing) refl)
        | inr (p, found) ↦ elim (Bool-cases (same_status p.status c.status)) [
          | inl same ↦ unchanged k o w (run_call c w) here (run ∙ rw (able, found, same) refl)
          | inr other ↦
              let saved = with_status c.now c.status p in
              let e = status_event p.status saved in
              rw (run, able, found, other)
                (elim (Bool-cases (saved.id == k)) [
                  | inl hit ↦
                      let is_k : c.order_id ≡ k =
                        ground (arith, find_holds (has_id c.order_id) (orders_of w) p found) in
                      let row : p ≡ o =
                        ground (arith, here, ap (λ i. find (has_id i) (orders_of w)) is_k) in
                      (
                        e ∷ [],
                        saved,
                        refl,
                        rw (find-present c.order_id p (orders_of w) found)
                            (replaced_same k saved o (orders_of w) hit here),
                        rw (hit, row) (inl refl, refl, (inl refl, refl)),
                      )
                  | inr miss ↦ (
                    e ∷ [],
                    o,
                    refl,
                    rw (find-present c.order_id p (orders_of w) found)
                        (replaced_other k saved (orders_of w) miss ∙ here),
                    rw miss (inl refl, refl),
                  )
                ])
        ]
      ]
    ]

find_processed :
    (i k : Uuid) (now : ℕ) (o : Order) (os : List Order)
    → find (has_id k) os ≡ some o
    → (o' : Order) × (find (has_id k) (update_where (has_id i) (as_processed now) os) ≡ some o')
      × Follows o.status o'.status
      × (o'.status_version ≡ o.status_version)
find_processed i k now o [] h = absurd (cc)
find_processed i k now o (x ∷ os) h = elim (Bool-cases (has_id k x)) [
  | inl mine ↦
      let same : x ≡ o = ground arith in
      elim (Bool-cases (has_id i x)) [
        | inl hit ↦ (as_processed now o, rw (hit, mine, same) refl, inr refl, refl)
        | inr miss ↦ (o, rw (miss, mine, same) refl, inl refl, refl)
      ]
  | inr other ↦
      let rest : find (has_id k) os ≡ some o = ground arith in
      let (o', found, follows, version) = find_processed i k now o os rest in
      (o', ground (arith, found, Bool-cases (has_id i x)), follows, version)
]

run_write-Announced :
    (c : StatusWrite) (w : App) (k : Uuid) (o : Order)
    → find (has_id k) (orders_of w) ≡ some o
    → Announced k o w (run_write c w)
run_write-Announced (by_call c) w k o here = run_call-Announced c w k o here
run_write-Announced (by_processor now i) w k o here =
    let (o', found, follows, version) = find_processed i k now o (orders_of w) here in
    ([], o', sym (append-nil w.status_changes), found, (follows, version))

-- Over any calls of `updateStatus`, by anyone, at any times, with any statuses, and any updates of the
-- processor, one after another and none while another runs: what is announced of an order that stays is a
-- chain of consecutive versions, from the version it had to the one it has, so that none is announced twice or
-- left out; each event starts from the status where the one before it ended, or from the status processed,
-- and the order ends with the status of the last event, or processed.
pub run_writes-Chain :
    (cs : List StatusWrite) (w : App) (k : Uuid) (o : Order)
    → find (has_id k) (orders_of w) ≡ some o
    → (new : List OrderStatusChangedEvent) × (o' : Order) × ((run_writes cs w).status_changes
        ≡ w.status_changes ++ new)
      × (find (has_id k) (orders_of (run_writes cs w)) ≡ some o')
      × Chain o.status o.status_version (select (event_of k) new) o'.status o'.status_version
run_writes-Chain [] w k o here = unchanged k o w w here refl
run_writes-Chain (c ∷ cs) w k o here =
    let (new1, o1, said1, here1, chain1) = run_write-Announced c w k o here in
    let (new2, o2, said2, here2, chain2) = run_writes-Chain cs (run_write c w) k o1 here1 in
    let said = said2 ∙ ap (λ xs. xs ++ new2) said1 ∙ append_assoc w.status_changes new1 new2 in
    (
      new1 ++ new2,
      o2,
      said,
      here2,
      rw (select-append (event_of k) new1 new2) (
          Chain-append o.status o.status_version (select (event_of k) new1) o1.status
            o1.status_version (select (event_of k) new2) o2.status o2.status_version chain1 chain2),
    )
