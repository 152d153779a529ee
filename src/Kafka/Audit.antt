-- ===== src/Kafka/Audit.antt =====
-- What the audit of the payment events (src/payments/payments-audit.consumer.ts) makes of a partition.
use e_commerce_order_platfor.Common.{
  ⊤, ℕ, suc, ◌≡◌, refl, ap, ◌∙◌, String, none, some, List, [], ◌∷◌, ◌++◌, append_assoc, append-nil,
  length, Result, ok, err, Exception, All, sym,
}
use e_commerce_order_platfor.Kafka.Groups.{
  restarts, run_all, IsTaken, IsPoison, poison_message_blocks,
}
use e_commerce_order_platfor.Kafka.PaymentEvents.{Js}
use e_commerce_order_platfor.Kafka.Normalizer.{NormalizedPaymentEvent, parse_payment_event}
use e_commerce_order_platfor.Kafka.Consumers.{KafkaMessage, AuditLine, audit_line, audit_message}

-- A message without a value, or with an event that can be read.
unfoldable pub IsReadable : Js → KafkaMessage → Type 0
IsReadable js none = ⊤
IsReadable js (some value) = (e : NormalizedPaymentEvent) × (parse_payment_event js value ≡ ok e)

abbrev line_before : Result NormalizedPaymentEvent → List AuditLine → List AuditLine
line_before (err e) ls = ls
line_before (ok e) ls = audit_line e ∷ ls

-- One line for each event that can be read, in the order of the messages.
abbrev pub audit_lines : Js → List KafkaMessage → List AuditLine
audit_lines js [] = []
audit_lines js (none ∷ ms) = audit_lines js ms
audit_lines js (some value ∷ ms) = line_before (parse_payment_event js value) (audit_lines js ms)

audit-IsTaken : (js : Js) (m : KafkaMessage) → IsReadable js m → IsTaken (audit_message js) m
unfolding IsReadable
audit-IsTaken js none r s = refl
audit-IsTaken js (some value) (e, parsed) s = rw parsed refl

All-IsTaken :
    (js : Js) (ms : List KafkaMessage)
    → All (IsReadable js) ms
    → All (IsTaken (audit_message js)) ms
All-IsTaken js [] h = tt
All-IsTaken js (m ∷ ms) h = (audit-IsTaken js m h.0, All-IsTaken js ms h.1)

run_all-audit_lines :
    (js : Js) (ms : List KafkaMessage) (ls : List AuditLine)
    → All (IsReadable js) ms
    → run_all (audit_message js) ms ls ≡ ls ++ audit_lines js ms
unfolding IsReadable
run_all-audit_lines js [] ls h = sym (append-nil ls)
run_all-audit_lines js (none ∷ ms) ls h = run_all-audit_lines js ms ls h.1
run_all-audit_lines js (some value ∷ ms) ls ((e, parsed), h) = rw parsed (
    run_all-audit_lines js ms (ls ++ audit_line e ∷ []) h
    ∙ append_assoc ls (audit_line e ∷ []) (audit_lines js ms))

-- Where all messages before one can be read and this one cannot: the audit, however often its consumer is
-- started, has one line for each event before it, in order, and commits exactly the offset of this message;
-- no event after it is ever written down.
pub unreadable_event_blocks_audit :
    (js : Js) (pre : List KafkaMessage) (bad : String) (x : Exception) (post : List KafkaMessage)
    (n : ℕ)
    → All (IsReadable js) pre
    → parse_payment_event js bad ≡ err x
    → restarts
        (audit_message js)
        (pre ++ some bad ∷ post)
        (suc n)
        (record { committed = 0; state = [] })
      ≡ record { committed = length pre; state = audit_lines js pre }
unreadable_event_blocks_audit js pre bad x post n readable failed =
    let poison : IsPoison (audit_message js) (some bad) = λ s. (x, rw failed refl) in
    poison_message_blocks (audit_message js) pre (some bad) post n [] (All-IsTaken js pre readable)
      poison
    ∙ ap (λ ls. record { committed = length pre; state = ls })
        (run_all-audit_lines js pre [] readable)
