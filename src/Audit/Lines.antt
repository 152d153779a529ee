-- ===== src/Audit/Lines.antt =====
-- What the lines of src/common/audit/audit.service.ts say.
use e_commerce_order_platfor.Common.{
  ℕ, ◌≡◌, ◌≢◌, refl, Option, none, some, List, [], ◌∷◌, ◌++◌, inl, inr, ◌⊎◌,
}
use e_commerce_order_platfor.Runtime.{AuditOutcome}
use e_commerce_order_platfor.Audit.{
  Incident, level_of, or_next, Logged, Level, HttpRequest, record_event, record_with_request,
  build_audit_request_context,
}

or_next-same : {A : Type 0} (a : Option A) → or_next a a ≡ a
or_next-same none = refl
or_next-same (some x) = refl

level_of_cases :
    (o : AuditOutcome)
    → ((o ≡ AuditOutcome.success) × (level_of o ≡ Level.log))
      ⊎ ((o ≢ AuditOutcome.success) × (level_of o ≡ Level.warn))
level_of_cases AuditOutcome.success = inl (refl, refl)
level_of_cases AuditOutcome.failure = inr ((λ e. cc), refl)
level_of_cases AuditOutcome.denied = inr ((λ e. cc), refl)

-- Recording an event of a request adds one line at the end; it bears the id of the request twice, as its
-- own and to correlate it with others, names the event's target and outcome, and is a warning exactly where
-- the outcome is no success.
recorded_line :
    {D : Type 0} (now : ℕ) (e : Incident D) (r : HttpRequest) (lines : List (Logged D))
    → (l : Logged D) × (record_with_request now e (build_audit_request_context (some r)) lines
        ≡ (lines ++ l ∷ []))
      × (l.payload.request_id ≡ r.request_id)
      × (l.payload.correlation_id ≡ r.request_id)
      × (l.payload.target_id ≡ e.target_id)
      × (((e.outcome ≡ AuditOutcome.success) × (l.level ≡ Level.log))
          ⊎ ((e.outcome ≢ AuditOutcome.success) × (l.level ≡ Level.warn)))
unfolding record_with_request record_event build_audit_request_context
recorded_line now e r lines =
    (_, refl, refl, or_next-same r.request_id, refl, level_of_cases e.outcome)
