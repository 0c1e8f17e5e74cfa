-- ===== src/Api/Disclosure.antt =====
-- bat/api/errors.py: what a response tells of an error.
use bat_ai.Prelude.{
  Bool, true, not, ◌⊎◌, inl, inr, none, Bool-cases, if◌then◌else◌, ap, ◌∙◌, ◌≡◌, refl, ℕ, ◌+◌, ◌*◌,
  ◌≤◌, ◌<◌, max, Option, false, arith,
}
use bat_ai.Prelude.Text.{Text}
use bat_ai.Domain.Errors.{
  authentication, authorization, not_found, conflict, validation, rate_limit, tool, tool_denied,
  upstream, upstream_timeout, model_unavailable, ErrorClass, error, is_public, error_code,
  error_status, bat_error,
}
use bat_ai.Api.Problems.{
  bat_error_handler, unhandled_exception_handler, problem, retry_after, withheld,
}

-- The classes whose message is for the server alone: what is none of the other classes, and what a
-- dependency of the server did.
abbrev pub is_internal : ErrorClass → Bool
is_internal bat_error = true
is_internal upstream = true
is_internal upstream_timeout = true
is_internal _ = false

is_public-is_internal : (kind : ErrorClass) → is_public kind ≡ not (is_internal kind)
unfolding is_public
is_public-is_internal bat_error = refl
is_public-is_internal authentication = refl
is_public-is_internal authorization = refl
is_public-is_internal not_found = refl
is_public-is_internal conflict = refl
is_public-is_internal validation = refl
is_public-is_internal (rate_limit ms) = refl
is_public-is_internal tool = refl
is_public-is_internal tool_denied = refl
is_public-is_internal upstream = refl
is_public-is_internal upstream_timeout = refl
is_public-is_internal model_unavailable = refl

-- The document that the handler of errors makes of a `BatError` shows its message and details exactly
-- where its class is none of three: an internal error, a failure upstream and a timeout upstream
-- give one document each, whatever message and details they carry, which says only that something
-- went wrong; that of an internal error is the one that any other exception gets.
pub bat_error_handler-withholds :
    {D : Type 0} (request_id : Option Text) (kind : ErrorClass) (message message' : Text)
    (details details' : Option D)
    → ((is_internal kind ≡ false)
        ⊎ (bat_error_handler request_id (error kind message) details
            ≡ bat_error_handler request_id (error kind message') details'))
      × ((bat_error_handler request_id (error kind message) details).detail
          ≡ (if is_internal kind then withheld else message))
      × ((bat_error_handler request_id (error kind message) details).errors
          ≡ (if is_internal kind then none else details))
      × (bat_error_handler request_id (error bat_error message) details
          ≡ unhandled_exception_handler request_id)
unfolding bat_error_handler unhandled_exception_handler problem error_code error_status
bat_error_handler-withholds request_id kind message message' details details' =
    let public = is_public-is_internal kind in
    elim (Bool-cases (is_internal kind)) [
      | inl hidden ↦
          let h : is_public kind ≡ false = public ∙ ap not hidden in
          rw (h, hidden) (inr refl, refl, refl, unfold is_public in refl)
      | inr shown ↦
          let h : is_public kind ≡ true = public ∙ ap not shown in
          rw (h, shown) (inl refl, refl, refl, unfold is_public in refl)
    ]

-- A client that waits as long as the header says has waited at least as long as the limiter asks, at
-- least a second, and less than a second longer than that.
pub retry_after_lem :
    (ms : ℕ)
    → (ms ≤ retry_after ms * 1000)
      × (1 ≤ retry_after ms)
      × (retry_after ms * 1000 < max 1 ms + 1000)
unfolding retry_after
retry_after_lem ms = (omega arith, omega arith, omega arith)
