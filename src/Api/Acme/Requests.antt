-- ===== src/Api/Acme/Requests.antt =====
-- What the ACME handlers of internal/api/acme.go share: URLs, problems, and the checks on a JWS.
use Prim.Native.Char.{code}
use Prim.Native.String
use trust_mate.Common.{
  ℕ, ◌+◌, ◌*◌, ◌^◌, String, not, Option, none, some, [], ◌∷◌, ◌==◌, nat_eq, take, if◌then◌else◌,
}
use trust_mate.Store.Records.{Octets, AccountRecord, Error, not_found, other}
use trust_mate.Store.Nonces
use trust_mate.Store.Accounts
use trust_mate.Acme.Types.{Jws}
use trust_mate.Acme.Jws.{parse_jws, verify, jwk_public_key}
use trust_mate.Exec.{Exec, ◌>>=◌, pure, raise, gets, attempt, try, now}
use trust_mate.Api.Http.{Response, Body, acme_error}
use trust_mate.Api.Deps.{Deps}

abbrev pub minute : ℕ
minute = 60 * 1000000000

abbrev pub nonce_ttl : ℕ
nonce_ttl = 5 * minute

abbrev pub eab_token_ttl : ℕ
eab_token_ttl = 24 * 60 * minute

unfoldable pub acme_url : Deps → String → String
acme_url deps path = String.◌++◌ deps.public_base_url (String.◌++◌ "/v1/acme/" path)

-- The nonce of the Replay-Nonce header, if one can be issued.
unfoldable pub issue_nonce : Exec Error String
issue_nonce = do t ← now; Nonces.issue (t + nonce_ttl)

unfoldable pub attach_nonce : Exec Response (Option String)
attach_nonce = try issue_nonce

-- a success with the header
unfoldable pub respond : ℕ → Body → Option String → Exec Response Response
respond status body location = do
  nonce ← attach_nonce
  pure (record { status = status; body = body; location = location; replay_nonce = nonce })

-- acmeProblem, and the early return after it
unfoldable pub acme_problem : {A : Type 0} → ℕ → String → Exec Response A
acme_problem status type = do
  nonce ← attach_nonce
  raise (record { status = status; body = acme_error type; location = none; replay_nonce = nonce })

-- the value of a step that can fail, or the problem
unfoldable pub or_problem : {A : Type 0} → ℕ → String → Option A → Exec Response A
or_problem status type none = acme_problem status type
or_problem status type (some a) = pure a

abbrev body_limit : ℕ
body_limit = 2 ^ 20

-- readBody: the first MiB of what can be read, if it is not empty
unfoldable pub read_body : Option Octets → Option Octets
read_body none = none
read_body (some bytes) = elim (take body_limit bytes) [ [] ↦ none | b ∷ bs ↦ some (b ∷ bs) ]

unfoldable pub verified_jws : Deps → Option Octets → String → Exec Response Jws
verified_jws deps body expected_url = do
  lib ← gets (λ w. w.env.lib)
  bytes ← or_problem 400 "malformed" (read_body body)
  jws ← or_problem 400 "malformed" (parse_jws lib bytes)
  t ← now
  fresh ←
      attempt (Nonces.consume_if_valid jws.header.nonce t) (λ _. acme_problem 500 "serverInternal")
  if not fresh
      then acme_problem 400 "badNonce"
      else if jws.header.url == expected_url
      then pure jws
      else acme_problem 400 "malformed"

-- strings.HasPrefix and strings.TrimPrefix
unfoldable pub strip_prefix : String → String → Option String
strip_prefix String.[] s = some s
strip_prefix (String.◌∷◌ c p) String.[] = none
strip_prefix (String.◌∷◌ c p) (String.◌∷◌ d s) =
    let rest = strip_prefix p s in if nat_eq (code c) (code d) then rest else none

unfoldable pub or_other : {A : Type 0} → Option A → Exec Error A
or_other none = raise other
or_other (some a) = pure a

-- the account that the JWS names by its kid, once its signature fits that account's key
unfoldable pub resolve_account : Deps → Jws → Exec Error AccountRecord
unfolding or_other
resolve_account deps jws = do
  id ← or_other (strip_prefix (acme_url deps "account/") jws.header.kid)
  account ← Accounts.get_by_id id
  lib ← gets (λ w. w.env.lib)
  key ← or_other (jwk_public_key lib account.public_key_jwk)
  if verify lib jws key then pure account else raise other

-- the problems for its errors
unfoldable pub account_problem : {A : Type 0} → Error → Exec Response A
account_problem not_found = acme_problem 401 "accountDoesNotExist"
account_problem _ = acme_problem 401 "unauthorized"
