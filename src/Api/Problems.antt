-- ===== src/Api/Problems.antt =====
-- bat/api/errors.py and the body limit of bat/api/middleware.py: the responses to errors, as RFC 9457
-- problem documents. The request's id is an argument; what is logged is left out.
use bat_ai.Prelude.{
  ◌*◌, ◌-◌, ◌||◌, ℕ, ◌+◌, ◌/◌, max, Bool, ◌&&◌, List, [], ◌∷◌, ◌++◌, Option, none, some, String,
  if◌then◌else◌, nat_beq, leb, ltb, all, take, map, string_eq, keep, not,
}
use bat_ai.Prelude.Dict.{Dict}
use bat_ai.Prelude.Text.{Text, codes, decimal, join, text_beq}
use bat_ai.Domain.Errors.{ErrorClass, BatError, error_code, error_status, is_public, rate_limit}
use bat_ai.Rag.Chunking.{is_empty}

-- The body and the headers. What a public error says of its details, or the fields that failed, is
-- `errors`.
pub record Problem (D : Type 0) : Type 0 where
  pub status : ℕ
  pub type : Text
  pub title : Text
  pub code : String
  pub detail : Text
  pub request_id : Option Text
  pub errors : Option D
  pub headers : Dict String Text

-- `code.replace("_", " ")`
unfoldable pub spaced : Text → Text
spaced code = map (λ c. if nat_beq c b'_' then 32 else c) code

given : Option Text → Option Text
given none = none
given (some id) = if is_empty id then none else some id

module _ {D : Type 0} where
  unfoldable pub problem : ℕ → String → Text → Option Text → Option D → Dict String Text → Problem D
  unfolding spaced given
  problem status code detail request_id extra headers = record {
    status = status;
    type = codes "https://docs.bat.ai/errors/" ++ codes code;
    title = spaced (codes code);
    code = code;
    detail = detail;
    request_id = given request_id;
    errors = extra;
    headers = headers;
  }

abbrev pub withheld : Text
withheld = codes "an internal error occurred; quote the request_id when reporting it"

-- The wait in whole seconds, of one in milliseconds: `max(1, int(seconds + 0.999))`.
unfoldable pub retry_after : ℕ → ℕ
retry_after ms = max 1 ((ms + 999) / 1000)

unfoldable pub retry_headers : ErrorClass → Dict String Text
unfolding retry_after
retry_headers (rate_limit ms) = ("Retry-After", decimal (retry_after ms)) ∷ []
retry_headers _ = []

module _ {D : Type 0} where
  -- `bat_error_handler`; the details are those of the error, if it has some.
  unfoldable pub bat_error_handler : Option Text → BatError → Option D → Problem D
  unfolding problem retry_headers
  bat_error_handler request_id e details =
      if is_public e.kind
      then problem (error_status e.kind) (error_code e.kind) e.message request_id details
          (retry_headers e.kind)
      else problem (error_status e.kind) (error_code e.kind) withheld request_id none []

  -- `unhandled_exception_handler`
  unfoldable pub unhandled_exception_handler : Option Text → Problem D
  unfolding problem
  unhandled_exception_handler request_id = problem 500 "internal_error" withheld request_id none []

-- One error of the request's validation: where it is, and what it says.
pub record FieldError : Type 0 where
  pub location : List Text
  pub message : Text

pub record Summary : Type 0 where
  pub field : Text
  pub message : Text

-- `_summarize`
unfoldable pub summarize : List FieldError → List Summary
summarize errors =
    map
      (λ (e : FieldError).
        let location =
          join (codes ".") (keep (λ part. not (text_beq part (codes "body"))) e.location) in
        record {
          field = if is_empty location then codes "body" else location;
          message = e.message;
        })
      (take 20 errors)

-- `validation_error_handler`
unfoldable pub validation_error_handler : Option Text → List FieldError → Problem (List Summary)
unfolding problem summarize
validation_error_handler request_id errors =
    problem 422 "invalid_request" (codes "request body or parameters failed validation") request_id
      (some (summarize errors)) []

-- `_CODES`, with its default.
unfoldable pub code_of : ℕ → String
code_of status =
    if nat_beq status 404
    then "not_found"
    else if nat_beq status 405
    then "method_not_allowed"
    else if nat_beq status 409
    then "conflict"
    else if nat_beq status 413
    then "payload_too_large"
    else if nat_beq status 429
    then "rate_limited"
    else "http_error"

-- `http_exception_handler`; the detail of an exception that has no text is none.
unfoldable pub http_exception_handler :
    {D : Type 0} → Option Text → ℕ → Option Text → Dict String Text → Problem D
unfolding problem code_of
http_exception_handler request_id status detail headers =
    problem status (code_of status) (elim detail [ none ↦ codes "request failed" | some d ↦ d ])
      request_id none headers

-- The value of a text of decimal digits.
unfoldable pub number_of : ℕ → Text → ℕ
number_of n [] = n
number_of n (c ∷ cs) = number_of (n * 10 + (c - b'0')) cs

is_digit : ℕ → Bool
is_digit c = leb b'0' c && leb c b'9'

-- `BodySizeLimitMiddleware`: the response to a declared length above the limit; otherwise the request
-- goes on.
unfoldable pub limit_body : {D : Type 0} → ℕ → Option Text → Option Text → Option (Problem D)
unfolding problem number_of is_digit
limit_body max_bytes request_id none = none
limit_body max_bytes request_id (some declared) =
    if not (is_empty declared) && (all is_digit declared && ltb max_bytes (number_of 0 declared))
    then some (
        problem 413 "payload_too_large"
          (codes "request body exceeds " ++ (decimal max_bytes ++ codes " bytes")) request_id none
          [])
    else none

is_id_char : (ℕ → Bool) → ℕ → Bool
is_id_char is_alnum c = is_alnum c || nat_beq c b'-' || nat_beq c b'_'

-- `_resolve_id`; `is_alnum` is Python's test of a character, and a new id is drawn where nothing is
-- left.
unfoldable pub resolve_id : (ℕ → Bool) → ℕ → Text → Text → Text
unfolding is_id_char
resolve_id is_alnum max_length fresh inbound =
    let cleaned = take max_length (keep (is_id_char is_alnum) inbound) in
    if is_empty cleaned then fresh else cleaned
