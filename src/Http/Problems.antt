-- ===== src/Http/Problems.antt =====
-- What a client is told of an exception by src/common/filters/http-exception.filter.ts.
use e_commerce_order_platfor.Common.{ℕ, String, ◌≡◌, refl, Option, none, some, false}
use e_commerce_order_platfor.Files.Text.{is_empty}
use e_commerce_order_platfor.Http.Filter.{
  ExceptionPayload, unexpected, Request, Host, code_of, http_problem, catch_exception,
}

module _ {V : Type 0} where
  -- An exception that is not of HTTP never shows in the answer: two of them are answered alike.
  unexpected_is_hidden :
      (h : Host V) (r : Option Request) (s t : String)
      → catch_exception h r (unexpected s) ≡ catch_exception h r (unexpected t)
  unfolding catch_exception
  unexpected_is_hidden h none s t = refl
  unexpected_is_hidden h (some r) s t = refl

  -- Where the payload has no type, and its code is missing or not empty, the type of the problem does not
  -- depend on the status: the types by status are not reached.
  kind_ignores_status :
      (h : Host V) (r : Request) (a b : ℕ) (p : ExceptionPayload V) (s : String)
      → p.kind ≡ none
      → is_empty (code_of p) ≡ false
      → (http_problem h r a p s).kind ≡ (http_problem h r b p s).kind
  kind_ignores_status h r a b p s missing coded = rw (missing, coded) refl
