-- ===== src/Orders/Processor/Transaction.antt =====
-- `processOrder` of src/orders/orders-processor.consumer.ts against an account of its result and of the
-- committed tables.
use e_commerce_order_platfor.Common.{
  ◌≡◌, inl, inr, ◌⊎◌, true, false, Option, none, some, [], ◌∷◌, ◌++◌, text, Exception, plain, coded,
  Result, ok, err, arith, Option-cases, Bool-cases, any, update_where, if◌then◌else◌,
}
use e_commerce_order_platfor.Database.{OrdersProcessMessage, Database, Session}
use e_commerce_order_platfor.Orders.Processor.{
  ProcessorEnv, ProcessResult, success, duplicate, has_message, has_id, new_processed, as_processed,
  process_order,
}

-- The tables after a message was processed.
abbrev pub processed_db : ProcessorEnv → OrdersProcessMessage → Database → Database
processed_db env m d = record d {
  processed_messages = d.processed_messages ++ new_processed env m ∷ [];
  orders = update_where (has_id m.order_id) (as_processed env.now) d.orders;
}

abbrev refused_or :
    Option Exception
    → ProcessorEnv
    → OrdersProcessMessage
    → Database
    → Result ProcessResult × Database
refused_or (some e) env m d = (err e, d)
refused_or none env m d = (ok success, processed_db env m d)

-- What processing a message comes to, on the committed tables.
abbrev pub processing :
    ProcessorEnv → OrdersProcessMessage → Database → Result ProcessResult × Database
processing env m d =
    if any (has_message m.message_id) d.processed_messages
    then (ok duplicate, d)
    else (if any (has_id m.order_id) d.orders
        then (if m.simulate
            then (err (plain (text "Simulated worker error")), d)
            else refused_or env.update_fails env m d)
        else (err (coded "23503"), d))

-- Whatever the database does: a message that is recorded already is a duplicate and changes nothing; a
-- message for an order that does not exist, one that is to fail, and one whose UPDATE fails end with an
-- error and change nothing; any other is recorded and its order marked in one commit. No transaction is
-- left open.
pub process_order_lem :
    (env : ProcessorEnv) (m : OrdersProcessMessage) (s : Session)
    → process_order env m s
      ≡ ((processing env m s.db).0, record s { db = (processing env m s.db).1; tx = none })
unfolding process_order
process_order_lem env m s =
    elim (Bool-cases (any (has_message m.message_id) s.db.processed_messages)) [
      | inl seen ↦ ground arith
      | inr new ↦ elim (Bool-cases (any (has_id m.order_id) s.db.orders)) [
        | inr missing ↦ ground arith
        | inl there ↦ elim (Option-cases env.update_fails) [
          | inl fine ↦ elim (Bool-cases m.simulate) [ inl e ↦ ground arith | inr e ↦ ground arith ]
          | inr (e, refused) ↦ elim (Bool-cases m.simulate) [
            | inl e ↦ ground arith
            | inr e ↦ ground arith
          ]
        ]
      ]
    ]

-- The three ways that processing ends.
pub processing-cases :
    (env : ProcessorEnv) (m : OrdersProcessMessage) (d : Database)
    → ((any (has_message m.message_id) d.processed_messages ≡ true)
        × (processing env m d ≡ (ok duplicate, d)))
      ⊎ (((any (has_message m.message_id) d.processed_messages ≡ false)
            × (processing env m d ≡ (ok success, processed_db env m d)))
          ⊎ ((e : Exception) × (any (has_message m.message_id) d.processed_messages ≡ false)
              × (processing env m d ≡ (err e, d))))
processing-cases env m d = elim (Bool-cases (any (has_message m.message_id) d.processed_messages)) [
  | inl seen ↦ inl (seen, ground arith)
  | inr new ↦ elim (Bool-cases (any (has_id m.order_id) d.orders)) [
    | inr missing ↦ inr (inr (coded "23503", new, ground arith))
    | inl there ↦ elim (Bool-cases m.simulate) [
      | inl fails ↦ inr (inr (plain (text "Simulated worker error"), new, ground arith))
      | inr works ↦ elim (Option-cases env.update_fails) [
        | inl fine ↦ inr (inl (new, ground arith))
        | inr (e, refused) ↦ inr (inr (e, new, ground arith))
      ]
    ]
  ]
]
