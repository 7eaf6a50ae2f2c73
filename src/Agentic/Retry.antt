-- ===== src/Agentic/Retry.antt =====
-- agentic.py, `is_transient_error` and `_call_provider_with_retry`.
pub mod Attempts
use lucyd.Base.{
  ◌≡◌, ℕ, zero, suc, ◌+◌, String, Bool, true, false, not, ◌&&◌, ◌||◌, Option, none, some, List, [],
  ◌∷◌, leb, ◌==◌, str_eq, mem_name, if◌then◌else◌,
}

-- What the code reads of an exception: its class, `status_code`, the status of an httpx `response`,
-- and `isinstance(exc, (ConnectionError, OSError))`.
pub record Exc : Type 0 where
  pub cls_name : String
  pub status_code : Option ℕ
  pub response_status : Option ℕ
  pub is_os_error : Bool

abbrev pub non_retryable : List String
non_retryable =
    "AuthenticationError" ∷ "PermissionDeniedError" ∷ "BadRequestError" ∷ "NotFoundError"
    ∷ "UnprocessableEntityError" ∷ []

abbrev pub retryable : List String
retryable =
    "RateLimitError" ∷ "APIStatusError" ∷ "InternalServerError" ∷ "APIConnectionError"
    ∷ "APITimeoutError" ∷ "OverloadedError" ∷ []

abbrev pub httpx_transient : List String
httpx_transient =
    "TimeoutException" ∷ "ConnectTimeout" ∷ "ReadTimeout" ∷ "WriteTimeout" ∷ "PoolTimeout"
    ∷ "ConnectError" ∷ "ReadError" ∷ "WriteError" ∷ "CloseError" ∷ "ProxyError" ∷ "NetworkError"
    ∷ "TransportError" ∷ "RemoteProtocolError" ∷ "LocalProtocolError" ∷ "ProtocolError" ∷ []

abbrev pub mistral_errors : List String
mistral_errors = "MistralError" ∷ "SDKError" ∷ "HTTPValidationError" ∷ []

-- `status is None or status >= 429`
unfoldable pub none_or_high : Option ℕ → Bool
none_or_high none = true
none_or_high (some status) = leb 429 status

-- `status is not None and status >= 429`
unfoldable pub some_high : Option ℕ → Bool
some_high none = false
some_high (some status) = leb 429 status

-- the branch for the Mistral SDK
unfoldable pub mistral_transient : Option ℕ → Bool
mistral_transient none = false
mistral_transient (some status) =
    if status == 400 || status == 401 || status == 403 || status == 404 || status == 422
    then false
    else leb 429 status

unfoldable pub is_transient_error : Exc → Bool
unfolding none_or_high some_high mistral_transient
is_transient_error e =
    if mem_name e.cls_name non_retryable
    then false
    else if mem_name e.cls_name retryable
    then none_or_high e.status_code
    else if str_eq e.cls_name "HTTPStatusError"
    then some_high e.response_status
    else if mem_name e.cls_name httpx_transient
    then true
    else if mem_name e.cls_name mistral_errors
    then mistral_transient e.status_code
    else e.is_os_error

-- How one call of the provider ends.
pub data Attempt (R : Type 0) : Type 0 where
  returned : R → Attempt R
  timed_out : Attempt R
  raised : Exc → Attempt R

-- How `_call_provider_with_retry` ends: `raise last_exc` with nothing set is `no_exception`.
pub data Outcome (R : Type 0) : Type 0 where
  ok : R → Outcome R
  timeout : Outcome R
  failed : Exc → Outcome R
  no_exception : Outcome R

pub ok_inj : {R : Type 0} {a b : R} → ok a ≡ ok b → a ≡ b
ok_inj h = cc

-- The outcome and how many calls were made.
pub record Called (R : Type 0) : Type 0 where
  pub outcome : Outcome R
  pub calls : ℕ

module _ {R : Type 0} where
  unfoldable pub raise_last : Option Exc → Outcome R
  raise_last none = no_exception
  raise_last (some e) = failed e

  -- one round of the loop: `again` is the rest of it
  unfoldable pub after_attempt : Attempt R → ℕ → ℕ → Called R → Called R
  after_attempt (returned r) retries attempt again = record { outcome = ok r; calls = attempt + 1 }
  after_attempt timed_out retries attempt again = record { outcome = timeout; calls = attempt + 1 }
  after_attempt (raised e) retries attempt again =
      if not (is_transient_error e) || leb retries attempt
      then record { outcome = failed e; calls = attempt + 1 }
      else again

  unfoldable pub exception_of : Attempt R → Option Exc
  exception_of (returned r) = none
  exception_of timed_out = none
  exception_of (raised e) = some e

  -- the loop over `range(1 + api_retries)`, with `left` rounds to go
  unfoldable pub attempts : (ℕ → Attempt R) → ℕ → ℕ → ℕ → Option Exc → Called R
  unfolding raise_last exception_of
  attempts call retries zero attempt last = record { outcome = raise_last last; calls = attempt }
  attempts call retries (suc left) attempt last =
      let again = attempts call retries left (attempt + 1) (exception_of (call attempt)) in
      after_attempt (call attempt) retries attempt again

  -- _call_provider_with_retry, where `call i` is the i-th call
  unfoldable pub call_provider_with_retry : (ℕ → Attempt R) → ℕ → Called R
  unfolding attempts
  call_provider_with_retry call api_retries = attempts call api_retries (1 + api_retries) 0 none
