-- ===== src/Api/Guarded.antt =====
-- api.py: what a request changes, behind the middlewares and the handlers' own checks.
use lucyd.Base.{◌≡◌, Text, Bool, true, false, ◌⊎◌, some, List, ◌++◌, is_empty, lit}
use lucyd.Api.Requests.{RawAttachment}
use lucyd.Api.Handlers.{HttpApi, HttpRequest, State}
use lucyd.Api.Handled.{IsQuiet, Handled}

module _ (api : HttpApi) (send_to_user : Text → List RawAttachment → Bool) where
  -- The files are kept as well.
  abbrev pub IsUntouched : State → State → Type 0
  IsUntouched s t = IsQuiet s t × (t.files ≡ s.files)

  -- A client is authorised on a trusted loopback address, or with the token, which is not empty.
  abbrev pub IsAuthorised : HttpRequest → Type 0
  IsAuthorised r =
      ((api.trust_localhost ≡ true) × ((r.remote ≡ some "127.0.0.1") ⊎ (r.remote ≡ some "::1")))
      ⊎ ((is_empty api.auth_token ≡ false) × (r.authorization ≡ lit "Bearer " ++ api.auth_token))
