-- ===== src/Audit.antt =====
-- The lines of the audit: `AuditService` and `buildAuditRequestContext` of src/common/audit/audit.service.ts,
-- with the types of src/common/audit/audit.types.ts. An absent field is `none`; the details are a value that
-- only JSON reads, so their type is the caller's.
pub mod Lines
use e_commerce_order_platfor.Common.{ℕ, String, Option, none, some, List, [], ◌∷◌, ◌++◌, or_default}
use e_commerce_order_platfor.Runtime.{AuditAction, AuditOutcome, success, failure, denied}

pub record AuditActorContext : Type 0 where
  pub id : Option String
  pub roles : Option (List String)
  pub scopes : Option (List String)

pub record AuditRequestContext : Type 0 where
  pub request_id : Option String
  pub ip : Option String
  pub user_agent : Option String

-- What a service says of an event, to `recordWithRequest`.
pub record Incident (D : Type 0) : Type 0 where
  pub action : AuditAction
  pub actor : Option AuditActorContext
  pub target_type : String
  pub target_id : Option String
  pub outcome : AuditOutcome
  pub reason : Option String
  pub details : Option D

-- The argument of `record`: the event with what is known of its request.
pub record RecordedEvent (D : Type 0) : Type 0 where
  pub incident : Incident D
  pub correlation_id : Option String
  pub request_id : Option String
  pub ip : Option String
  pub user_agent : Option String

-- The payload; `logType` is always 'audit'.
pub record AuditPayload (D : Type 0) : Type 0 where
  pub log_type : String
  pub timestamp : ℕ
  pub action : AuditAction
  pub actor_id : Option String
  pub actor_role : List String
  pub scopes : List String
  pub target_type : String
  pub target_id : Option String
  pub outcome : AuditOutcome
  pub correlation_id : Option String
  pub request_id : Option String
  pub reason : Option String
  pub ip : Option String
  pub user_agent : Option String
  pub details : Option D

pub data Level : Type 0 where
  warn log : Level

pub record Logged (D : Type 0) : Type 0 where
  pub level : Level
  pub payload : AuditPayload D

abbrev pub level_of : AuditOutcome → Level
level_of AuditOutcome.success = Level.log
level_of AuditOutcome.failure = Level.warn
level_of AuditOutcome.denied = Level.warn

-- `event.actor?.id` and its like.
abbrev pub in_actor :
    {A : Type 0} → (AuditActorContext → Option A) → Option AuditActorContext → Option A
in_actor field none = none
in_actor field (some a) = field a

abbrev pub or_next : {A : Type 0} → Option A → Option A → Option A
or_next none b = b
or_next (some a) b = some a

module _ {D : Type 0} where
  abbrev pub payload_of : ℕ → RecordedEvent D → AuditPayload D
  payload_of now e = record {
    log_type = "audit";
    timestamp = now;
    action = e.incident.action;
    actor_id = in_actor (λ a. a.id) e.incident.actor;
    actor_role = or_default (in_actor (λ a. a.roles) e.incident.actor) [];
    scopes = or_default (in_actor (λ a. a.scopes) e.incident.actor) [];
    target_type = e.incident.target_type;
    target_id = e.incident.target_id;
    outcome = e.incident.outcome;
    correlation_id = or_next e.correlation_id e.request_id;
    request_id = e.request_id;
    reason = e.incident.reason;
    ip = e.ip;
    user_agent = e.user_agent;
    details = e.incident.details;
  }

  -- `record`, on the lines of the log.
  unfoldable pub record_event : ℕ → RecordedEvent D → List (Logged D) → List (Logged D)
  record_event now e lines =
      lines ++ (record { level = level_of e.incident.outcome; payload = payload_of now e }) ∷ []

abbrev pub in_request :
    {A : Type 0} → (AuditRequestContext → Option A) → Option AuditRequestContext → Option A
in_request field none = none
in_request field (some r) = field r

unfoldable pub record_with_request :
    {D : Type 0} → ℕ → Incident D → Option AuditRequestContext → List (Logged D) → List (Logged D)
record_with_request now e request lines =
    record_event now
      (record {
        incident = e;
        correlation_id = in_request (λ r. r.request_id) request;
        request_id = in_request (λ r. r.request_id) request;
        ip = in_request (λ r. r.ip) request;
        user_agent = in_request (λ r. r.user_agent) request;
      })
      lines

-- A header of a request: a string, or an array of strings.
pub data Header : Type 0 where
  single : String → Header
  several : List String → Header

pub record HttpRequest : Type 0 where
  pub request_id : Option String
  pub ip : Option String
  pub user_agent : Option Header

abbrev header_text : Option Header → Option String
header_text none = none
header_text (some (single s)) = some s
header_text (some (several [])) = none
header_text (some (several (s ∷ ss))) = some s

unfoldable pub build_audit_request_context : Option HttpRequest → Option AuditRequestContext
build_audit_request_context none = none
build_audit_request_context (some r) =
    some (record { request_id = r.request_id; ip = r.ip; user_agent = header_text r.user_agent })
