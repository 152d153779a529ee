-- ===== src/Rabbitmq/Life.antt =====
-- What the relay and the processor can rely on of the wrapper in src/rabbitmq/rabbitmq.service.ts.
use e_commerce_order_platfor.Common.{
  ◌≡◌, refl, String, true, false, not, ◌&&◌, Option, List, [], ◌∷◌, ◌++◌, ok, err, plain, text,
  append_assoc, append-nil, ap, ◌∙◌, sym, Result-cases, inl, inr, arith,
}
use e_commerce_order_platfor.Rabbitmq.Service.{
  Declaration, Amqp, PublishOptions, RabbitmqService, topology, declare_all, on_module_init,
  publish, on_module_destroy,
}

-- All of `xs` is declared where no declaration fails.
declare_all_lem :
    (amqp : Amqp) (xs : List Declaration) (s : RabbitmqService)
    → (declare_all amqp xs s).0 ≡ ok tt
    → (declare_all amqp xs s).1 ≡ record s { declared = s.declared ++ xs }
declare_all_lem amqp [] s done = ap (λ ds. record s { declared = ds }) (sym (append-nil s.declared))
declare_all_lem amqp (x ∷ xs) s done =
    let s1 : RabbitmqService = record s { declared = s.declared ++ x ∷ [] } in
    elim (Result-cases (amqp.declares x)) [
      | inr (e, failed) ↦ absurd (ground arith)
      | inl (u, declared) ↦
          let others : (declare_all amqp xs s1).0 ≡ ok tt = ground arith in
          let moved = append_assoc s.declared (x ∷ []) xs in
          rw declared
            (declare_all_lem amqp xs s1 others ∙ ap (λ ds. record s { declared = ds }) moved)
    ]

declare_all-connection :
    (amqp : Amqp) (xs : List Declaration) (s : RabbitmqService)
    → ((declare_all amqp xs s).1.channel ≡ s.channel)
      × ((declare_all amqp xs s).1.connection ≡ s.connection)
declare_all-connection amqp [] s = (refl, refl)
declare_all-connection amqp (x ∷ xs) s =
    let rest = declare_all-connection amqp xs (record s { declared = s.declared ++ x ∷ [] }) in
    elim (Result-cases (amqp.declares x)) [
      | inr (e, failed) ↦ rw failed (refl, refl)
      | inl (u, declared) ↦ rw declared rest
    ]

-- A start that succeeds leaves both set, and everything declared after what was declared before.
on_module_init_lem :
    (amqp : Amqp) (s : RabbitmqService)
    → (on_module_init amqp s).0 ≡ ok tt
    → (on_module_init amqp s).1
      ≡ record s { connection = true; channel = true; declared = s.declared ++ topology }
unfolding on_module_init
on_module_init_lem amqp s done =
    let s1 : RabbitmqService = record s { connection = true; channel = true } in
    elim (Result-cases amqp.connects) [
      | inr (e, c) ↦ absurd (ground arith)
      | inl (u, c) ↦ elim (Result-cases amqp.creates_channel) [
        | inr (e, k) ↦ absurd (ground arith)
        | inl (v, k) ↦ elim (Result-cases amqp.sets_prefetch) [
          | inr (e, p) ↦ absurd (ground arith)
          | inl (w, p) ↦
              let all : (declare_all amqp topology s1).0 ≡ ok tt = ground arith in
              rw (c, k, p) (declare_all_lem amqp topology s1 all)
        ]
      ]
    ]

-- An open channel has its connection.
abbrev pub IsConnected : RabbitmqService → Type 0
IsConnected s = (s.channel && not s.connection) ≡ false

on_module_init-IsConnected :
    (amqp : Amqp) (s : RabbitmqService) → IsConnected s → IsConnected (on_module_init amqp s).1
unfolding on_module_init
on_module_init-IsConnected amqp s h =
    let s1 : RabbitmqService = record s { connection = true; channel = true } in
    let (open_channel, connected) = declare_all-connection amqp topology s1 in
    elim (Result-cases amqp.connects) [
      | inr (e, c) ↦ rw c h
      | inl (u, c) ↦ elim (Result-cases amqp.creates_channel) [
        | inr (e, k) ↦ rw (c, k) h
        | inl (v, k) ↦ elim (Result-cases amqp.sets_prefetch) [
          | inr (e, p) ↦ rw (c, k, p) refl
          | inl (w, p) ↦ rw (c, k, p, open_channel, connected) refl
        ]
      ]
    ]

on_module_destroy-IsConnected :
    (amqp : Amqp) (s : RabbitmqService) → IsConnected s → IsConnected (on_module_destroy amqp s).1
unfolding on_module_destroy
on_module_destroy-IsConnected amqp s h = ground arith

-- After a stop that succeeds, and after one that failed to close the connection, nothing is published
-- until the next start.
publish-after_destroy :
    {A : Type 0} (stringify : A → String) (amqp later : Amqp) (key : String) (payload : A)
    (headers : Option (List (String × String))) (options : PublishOptions) (s : RabbitmqService)
    → amqp.closes_channel ≡ ok tt
    → let stopped = (on_module_destroy amqp s).1 in
      publish stringify later key payload headers options stopped
      ≡ (err (plain (text "RabbitMQ channel is not initialized")), stopped)
unfolding publish on_module_destroy
publish-after_destroy stringify amqp later key payload headers options s closes = ground arith
