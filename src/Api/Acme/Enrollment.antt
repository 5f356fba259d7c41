-- ===== src/Api/Acme/Enrollment.antt =====
-- Enrollment: the handlers for nonces, accounts and External Account Binding tokens of
-- internal/api/acme.go.
use Prim.Native.String
use trust_mate.Common.{
  ◌+◌, String, false, not, Option, none, some, [], ◌∷◌, ◌==◌, ltb, if◌then◌else◌,
}
use trust_mate.Store.Records.{
  Time, Octets, AccountRecord, EabTokenRecord, ClientRole, Error, not_found, already_exists,
  already_consumed,
}
use trust_mate.Store.EabTokens
use trust_mate.Store.Accounts
use trust_mate.Store.Audit
use trust_mate.Acme.Types.{Jws}
use trust_mate.Acme.Jws.{parse_jws, verify, verify_hmac, jwk_public_key, thumbprint, octets_eq}
use trust_mate.World.{acme_accounts}
use trust_mate.Exec.{
  Exec, ◌>>=◌, ◌>>◌, pure, raise, gets, attempt, try, now, random_text, random_bytes,
}
use trust_mate.Api.Http.{
  Response, Handler, json, account, eab_token, empty, write_problem, write_internal_error,
  malformed_json, invalid_role,
}
use trust_mate.Api.Deps.{Deps, count}
use trust_mate.Api.Issuing.{entry}
use trust_mate.Api.Clients.{parse_role, role_text}
use trust_mate.Api.Acme.Requests.{
  eab_token_ttl, acme_url, issue_nonce, respond, acme_problem, or_problem, verified_jws,
}

unfoldable pub handle_new_nonce : Handler
handle_new_nonce = do
  nonce ← attempt issue_nonce (λ _. acme_problem 500 "serverInternal")
  pure (record { status = 204; body = empty; location = none; replay_nonce = some nonce })

unfoldable pub no_account : Error → Exec Response (Option AccountRecord)
no_account not_found = pure none
no_account _ = acme_problem 500 "serverInternal"

-- the account of a thumbprint, if there is one
unfoldable pub find_account : String → Exec Response (Option AccountRecord)
find_account print = attempt (do a ← Accounts.get_by_thumbprint print; pure (some a)) no_account

unfoldable pub account_url : Deps → AccountRecord → Option String
account_url deps a = some (acme_url deps (String.◌++◌ "account/" a.id))

unfoldable pub token_problem : {A : Type 0} → Error → Exec Response A
token_problem not_found = acme_problem 401 "unauthorized"
token_problem _ = acme_problem 500 "serverInternal"

-- the checks on the inner JWS, up to the token that it names
unfoldable pub bound_token : Jws → Octets → Exec Response EabTokenRecord
bound_token jws binding = do
  lib ← gets (λ w. w.env.lib)
  eab ← or_problem 400 "malformed" (parse_jws lib binding)
  if not (eab.header.url == jws.header.url)
      then acme_problem 400 "malformed"
      else if not (octets_eq eab.payload jws.header.jwk)
      then acme_problem 401 "malformed"
      else do
        token ← attempt (EabTokens.get eab.header.kid) token_problem
        t ← (if token.consumed then acme_problem 401 "unauthorized" else now)
        if ltb token.expires_at t
            then acme_problem 401 "unauthorized"
            else if verify_hmac lib eab token.hmac_key
            then pure token
            else acme_problem 401 "unauthorized"

unfoldable pub claim_problem : {A : Type 0} → Error → Exec Response A
claim_problem already_consumed = acme_problem 401 "unauthorized"
claim_problem _ = acme_problem 500 "serverInternal"

-- the account that won a race for the same key
unfoldable pub lost_race : Deps → String → Error → Handler
lost_race deps print already_exists = do
  existing ← attempt (Accounts.get_by_thumbprint print) (λ _. acme_problem 500 "serverInternal")
  response ← respond 200 account (account_url deps existing)
  raise response
lost_race deps print _ = acme_problem 500 "serverInternal"

-- the new account of a claimed token, and the audit entry
unfoldable pub add_account : Deps → Jws → String → EabTokenRecord → String → Time → Handler
unfolding lost_race account_url
add_account deps jws print token remote_addr at = do
  id ← attempt (random_text 16) (λ _. acme_problem 500 "serverInternal")
  let new : AccountRecord = record {
    id = id;
    jwk_thumbprint = print;
    public_key_jwk = jws.header.jwk;
    role = token.role;
    eab_key_id = token.key_id;
    created_at = at;
  }
  attempt (Accounts.create new) (λ e. do lost_race deps print e; pure tt)
  try (Audit.append (entry at remote_addr "acme-new-account" id (role_text token.role)))
  count deps acme_accounts
  respond 201 account (account_url deps new)

-- from a verified token on: the claim, then the account
unfoldable pub create_account : Deps → Jws → String → EabTokenRecord → String → Handler
unfolding claim_problem
create_account deps jws print token remote_addr = do
  at ← now
  attempt (EabTokens.mark_consumed token.key_id at) claim_problem
  add_account deps jws print token remote_addr at

-- an existing account's key is answered with that account; a new key needs its binding
unfoldable pub enroll : Deps → Jws → Octets → String → String → Option AccountRecord → Handler
enroll deps jws binding print remote_addr (some a) = respond 200 account (account_url deps a)
enroll deps jws binding print remote_addr none = do
  token ← bound_token jws binding
  create_account deps jws print token remote_addr

unfoldable pub handle_new_account : Deps → Option Octets → String → Handler
handle_new_account deps body remote_addr = do
  jws ← verified_jws deps body (acme_url deps "new-account")
  lib ← gets (λ w. w.env.lib)
  jwk ← or_problem 400 "malformed" (elim jws.header.jwk [ [] ↦ none | b ∷ bs ↦ some (b ∷ bs) ])
  key ← or_problem 400 "malformed" (jwk_public_key lib jwk)
  if not (verify lib jws key) then acme_problem 401 "unauthorized" else do
    payload ← or_problem 400 "malformed" (lib.unmarshal_new_account jws.payload)
    binding ←
        or_problem 401 "externalAccountRequired"
          (elim payload.external_account_binding [ [] ↦ none | b ∷ bs ↦ some (b ∷ bs) ])
    print ← or_problem 500 "serverInternal" (thumbprint lib key)
    existing ← find_account print
    enroll deps jws binding print remote_addr existing

-- the role of the request, manager if none is asked for
unfoldable pub requested_role : Option (Option String) → Exec Response String
requested_role none = pure "manager"
requested_role (some none) = write_problem malformed_json
requested_role (some (some s)) = pure (if s == "" then "manager" else s)

unfoldable pub role_or_problem : Option ClientRole → Exec Response ClientRole
role_or_problem none = write_problem invalid_role
role_or_problem (some role) = pure role

unfoldable pub handle_issue_eab_token : Option (Option String) → String → Handler
unfolding requested_role role_or_problem
handle_issue_eab_token body remote_addr = do
  asked ← requested_role body
  role ← role_or_problem (parse_role asked)
  key_id ← attempt (random_text 16) (λ _. write_internal_error)
  hmac_key ← attempt (random_bytes 32) (λ _. write_internal_error)
  at ← now
  let rec : EabTokenRecord = record {
    key_id = key_id;
    hmac_key = hmac_key;
    role = role;
    created_at = at;
    expires_at = at + eab_token_ttl;
    consumed = false;
  }
  attempt (EabTokens.create rec) (λ _. write_internal_error)
  try (Audit.append (entry at remote_addr "acme-eab-token-issue" key_id (role_text role)))
  lib ← gets (λ w. w.env.lib)
  pure (json 201 (eab_token key_id (lib.base64url_encode hmac_key) role (at + eab_token_ttl)))
