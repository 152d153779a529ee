-- ===== src/Http/Filter.antt =====
-- `HttpExceptionFilter` of src/common/filters/http-exception.filter.ts. The payload of an HTTP exception is
-- read field by field, with `none` for a field that is missing; the payload that is a string has no fields.
-- A value of which the filter only tests whether it is truthy is of a type that the caller chooses.
use Prim.Native.String.{String, ◌++◌ as append_text}
use e_commerce_order_platfor.Common.{
  ℕ, Bool, Option, none, some, List, or_default, leb, ◌==◌, if◌then◌else◌,
}
use e_commerce_order_platfor.Files.Text.{is_empty, to_lower_case}

-- The `message` of a payload: a string, or an array of strings.
pub data PayloadMessage : Type 0 where
  one : String → PayloadMessage
  many : List String → PayloadMessage

pub record ExceptionPayload (V : Type 0) : Type 0 where
  pub kind : Option String
  pub code : Option String
  pub title : Option String
  pub error : Option String
  pub detail : Option String
  pub message : Option PayloadMessage
  pub errors : Option V
  pub details : Option V

-- What was thrown: an `HttpException`, with its status, its payload and its message, or anything else.
pub data Thrown (V : Type 0) : Type 0 where
  http_exception : ℕ → ExceptionPayload V → String → Thrown V
  unexpected : String → Thrown V

pub record Request : Type 0 where
  pub original_url : String
  pub url : String
  pub request_id : Option String

-- The field `type` of the source is `kind`.
pub record ProblemDetails (V : Type 0) : Type 0 where
  pub kind : String
  pub title : String
  pub status : ℕ
  pub detail : Option String
  pub instance_of : String
  pub code : String
  pub errors : Option V
  pub timestamp : ℕ
  pub request_id : Option String

pub record Response (V : Type 0) : Type 0 where
  pub status : ℕ
  pub content_type : String
  pub body : ProblemDetails V

-- node's enum `HttpStatus`, the clock, the test for a truthy value, and an array as a value.
pub record Host (V : Type 0) : Type 0 where
  pub http_status : ℕ → Option String
  pub now : ℕ
  pub is_truthy : V → Bool
  pub array : List String → V

abbrev by_status : ℕ → String
by_status status =
    if status == 400
    then "urn:problem:bad-request"
    else if status == 401
    then "urn:problem:unauthorized"
    else if status == 403
    then "urn:problem:forbidden"
    else if status == 404
    then "urn:problem:not-found"
    else if status == 409
    then "urn:problem:conflict"
    else if status == 422
    then "urn:problem:validation-error"
    else if leb 500 status
    then "about:blank"
    else "urn:problem:http-error"

-- `mapType`
abbrev pub map_type : ℕ → String → String
map_type status code =
    if is_empty code then by_status status else append_text "urn:problem:" (to_lower_case code)

abbrev pub or_empty : String → String → String
or_empty s other = if is_empty s then other else s

abbrev pub instance_in : Request → String
instance_in r = or_empty r.original_url (or_empty r.url "graphql")

-- `a ?? b`
abbrev or_next : {A : Type 0} → Option A → Option A → Option A
or_next none b = b
or_next (some a) b = some a

abbrev text_of : String → Option PayloadMessage → String
text_of message none = message
text_of message (some (one s)) = s
text_of message (some (many ss)) = message

abbrev shown : String → Option String
shown s = if is_empty s then none else some s

module _ {V : Type 0} where
  abbrev pub code_of : ExceptionPayload V → String
  code_of p = or_default p.code "HTTP_EXCEPTION"

  abbrev pub title_of : Host V → ℕ → ExceptionPayload V → String
  title_of h status p =
      or_default (or_next p.title (or_next p.error (h.http_status status))) "Error"

  abbrev pub detail_of : ExceptionPayload V → String → Option String
  detail_of p message = shown (or_default p.detail (text_of message p.message))

  abbrev list_or_details : Host V → ExceptionPayload V → Option PayloadMessage → Option V
  list_or_details h p none = p.details
  list_or_details h p (some (one s)) = p.details
  list_or_details h p (some (many ss)) = some (h.array ss)

  abbrev truthy : Host V → Option V → Option V
  truthy h none = none
  truthy h (some v) = if h.is_truthy v then some v else none

  abbrev pub errors_of : Host V → ExceptionPayload V → Option V
  errors_of h p = truthy h (or_next p.errors (list_or_details h p p.message))

  abbrev pub http_problem : Host V → Request → ℕ → ExceptionPayload V → String → ProblemDetails V
  http_problem h r status p message = record {
    kind = or_default p.kind (map_type status (code_of p));
    title = title_of h status p;
    status = status;
    detail = detail_of p message;
    instance_of = instance_in r;
    code = code_of p;
    errors = errors_of h p;
    timestamp = h.now;
    request_id = r.request_id;
  }

  abbrev pub internal_problem : Host V → Request → ProblemDetails V
  internal_problem h r = record {
    kind = "about:blank";
    title = "Internal Server Error";
    status = 500;
    detail = some "Unexpected error";
    instance_of = instance_in r;
    code = "INTERNAL_SERVER_ERROR";
    errors = none;
    timestamp = h.now;
    request_id = r.request_id;
  }

  abbrev json : ProblemDetails V → Response V
  json problem = record {
    status = problem.status;
    content_type = "application/problem+json";
    body = problem;
  }

  -- `catch`; `none` is where there is no request or response, and the exception is thrown again.
  unfoldable pub catch_exception : Host V → Option Request → Thrown V → Option (Response V)
  catch_exception h none e = none
  catch_exception h (some r) (http_exception status p message) =
      some (json (http_problem h r status p message))
  catch_exception h (some r) (unexpected message) = some (json (internal_problem h r))
