-- ===== src/Domain/Errors.antt =====
-- bat/domain/errors.py: the error classes with the code, status and publicity that each carries.
-- `details` only feeds the body of a response and is left out.
use bat_ai.Prelude.{◌≡◌, refl, ◌⊎◌, inl, inr, ℕ, Bool, true, false, String}
use bat_ai.Prelude.Text.{Text}

pub data ErrorClass : Type 0 where
  bat_error authentication authorization not_found conflict validation : ErrorClass
  -- `retry_after_seconds`, in milliseconds
  rate_limit : ℕ → ErrorClass
  tool tool_denied upstream upstream_timeout model_unavailable : ErrorClass

pub record BatError : Type 0 where
  pub kind : ErrorClass
  pub message : Text

unfoldable pub error_code : ErrorClass → String
error_code bat_error = "internal_error"
error_code authentication = "unauthenticated"
error_code authorization = "forbidden"
error_code not_found = "not_found"
error_code conflict = "conflict"
error_code validation = "invalid_request"
error_code (rate_limit retry) = "rate_limited"
error_code tool = "tool_error"
error_code tool_denied = "tool_denied"
error_code upstream = "upstream_error"
error_code upstream_timeout = "upstream_timeout"
error_code model_unavailable = "model_unavailable"

unfoldable pub error_status : ErrorClass → ℕ
error_status bat_error = 500
error_status authentication = 401
error_status authorization = 403
error_status not_found = 404
error_status conflict = 409
error_status validation = 422
error_status (rate_limit retry) = 429
error_status tool = 400
error_status tool_denied = 403
error_status upstream = 502
error_status upstream_timeout = 504
error_status model_unavailable = 503

-- Whether the message may be returned to an untrusted caller.
unfoldable pub is_public : ErrorClass → Bool
is_public bat_error = false
is_public upstream = false
is_public upstream_timeout = false
is_public _ = true

-- A value, or a `BatError` that was raised.
pub data Result {ℓ} (A : Type ℓ) : Type ℓ where
  ok : A → Result A
  raise : BatError → Result A

infixl 5 ◌>>=◌ ◌>>◌
abbrev pub ◌>>=◌ {ℓ κ} : {A : Type ℓ} {B : Type κ} → Result A → (A → Result B) → Result B
ok a >>= f = f a
raise e >>= f = raise e

abbrev pub ◌>>◌ {ℓ} : {B : Type ℓ} → Result (Unit {0}) → Result B → Result B
m >> k = m >>= λ _. k

abbrev pub error : ErrorClass → Text → BatError
error kind message = record { kind = kind; message = message }

pub Result-cases {ℓ} :
    {A : Type ℓ} (r : Result A) → ((a : A) × (r ≡ ok a)) ⊎ ((e : BatError) × (r ≡ raise e))
Result-cases (ok a) = inl (a, refl)
Result-cases (raise e) = inr (e, refl)
