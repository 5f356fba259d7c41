-- ===== src/Api/Growth/Enrollment.antt =====
-- The ACME enrollment routes of internal/api/acme.go, and the relation `Extends`.
use trust_mate.Common.{ℕ, String, Option, none, some}
use trust_mate.Store.Records.{
  Time, Octets, ClientRole, AccountRecord, EabTokenRecord, Error, not_found, already_exists,
  already_consumed,
}
use trust_mate.Store.Extends.{Extends-preorder}
use trust_mate.Store.Evolution.{Grows, store_grows}
use trust_mate.Acme.Types.{Jws}
use trust_mate.Exec.Evolves.{Evolves-pure, Evolves-raise}
use trust_mate.Api.Http.{Body}
use trust_mate.Api.Deps.{Deps}
use trust_mate.Api.Growth.{issuing_grows}
use trust_mate.Api.Acme.Requests.{
  issue_nonce, attach_nonce, respond, acme_problem, or_problem, verified_jws, or_other,
  resolve_account, account_problem,
}
use trust_mate.Api.Acme.Enrollment.{
  add_account, no_account, find_account, token_problem, bound_token, enroll, claim_problem,
  lost_race, create_account, handle_new_account, handle_new_nonce, requested_role, role_or_problem,
  handle_issue_eab_token,
}

issue_new_nonce-Grows : Grows issue_nonce
unfolding issue_nonce
issue_new_nonce-Grows = search store_grows depth 7

attach_nonce-Grows : Grows attach_nonce
unfolding attach_nonce
attach_nonce-Grows = search (store_grows, issue_new_nonce-Grows)

pub respond-Grows :
    (status : ℕ) (body : Body) (location : Option String) → Grows (respond status body location)
unfolding respond
respond-Grows status body location = search (store_grows, attach_nonce-Grows)

pub acme_problem-Grows :
    {A : Type 0} (status : ℕ) (type : String) → Grows (acme_problem {A = A} status type)
unfolding acme_problem
acme_problem-Grows status type = search (store_grows, attach_nonce-Grows)

pub or_problem-Grows :
    {A : Type 0} (status : ℕ) (type : String) (o : Option A) → Grows (or_problem status type o)
unfolding or_problem
or_problem-Grows status type none = acme_problem-Grows status type
or_problem-Grows status type (some a) = Evolves-pure a

pub verified_jws-Grows :
    (deps : Deps) (body : Option Octets) (url : String) → Grows (verified_jws deps body url)
unfolding verified_jws
verified_jws-Grows deps body url =
    search (store_grows, or_problem-Grows, acme_problem-Grows) depth 14

or_other-Grows : {A : Type 0} (o : Option A) → Grows (or_other o)
unfolding or_other
or_other-Grows none = Evolves-raise _
or_other-Grows (some a) = Evolves-pure a

pub resolve_account-Grows : (deps : Deps) (jws : Jws) → Grows (resolve_account deps jws)
unfolding resolve_account
resolve_account-Grows deps jws = search (store_grows, or_other-Grows) depth 12

pub account_problem-Grows : {A : Type 0} (e : Error) → Grows (account_problem {A = A} e)
unfolding account_problem
account_problem-Grows not_found = acme_problem-Grows _ _
account_problem-Grows _ = acme_problem-Grows _ _

pub ruleset acme_grows = (
  issuing_grows, respond-Grows, acme_problem-Grows, or_problem-Grows, verified_jws-Grows,
  resolve_account-Grows, account_problem-Grows,
)

pub handle_new_nonce-Grows : Grows handle_new_nonce
unfolding handle_new_nonce
handle_new_nonce-Grows = search (acme_grows, issue_new_nonce-Grows) depth 7

no_account-Grows : (e : Error) → Grows (no_account e)
unfolding no_account
no_account-Grows not_found = Evolves-pure _
no_account-Grows _ = acme_problem-Grows _ _

find_account-Grows : (print : String) → Grows (find_account print)
unfolding find_account
find_account-Grows print = search (store_grows, no_account-Grows)

token_problem-Grows : {A : Type 0} (e : Error) → Grows (token_problem {A = A} e)
unfolding token_problem
token_problem-Grows not_found = acme_problem-Grows _ _
token_problem-Grows _ = acme_problem-Grows _ _

bound_token-Grows : (jws : Jws) (binding : Octets) → Grows (bound_token jws binding)
unfolding bound_token
bound_token-Grows jws binding = search (acme_grows, token_problem-Grows) depth 18

claim_problem-Grows : {A : Type 0} (e : Error) → Grows (claim_problem {A = A} e)
unfolding claim_problem
claim_problem-Grows already_consumed = acme_problem-Grows _ _
claim_problem-Grows _ = acme_problem-Grows _ _

lost_race-Grows : (deps : Deps) (print : String) (e : Error) → Grows (lost_race deps print e)
unfolding lost_race
lost_race-Grows deps print already_exists = search acme_grows depth 9
lost_race-Grows deps print _ = acme_problem-Grows _ _

pub add_account-Grows :
    (deps : Deps) (jws : Jws) (print : String) (token : EabTokenRecord) (remote_addr : String)
    (at : Time)
    → Grows (add_account deps jws print token remote_addr at)
unfolding add_account
add_account-Grows deps jws print token remote_addr at =
    search (acme_grows, lost_race-Grows) depth 16

create_account-Grows :
    (deps : Deps) (jws : Jws) (print : String) (token : EabTokenRecord) (remote_addr : String)
    → Grows (create_account deps jws print token remote_addr)
unfolding create_account
create_account-Grows deps jws print token remote_addr =
    search (acme_grows, claim_problem-Grows, add_account-Grows) depth 9

enroll-Grows :
    (deps : Deps) (jws : Jws) (binding : Octets) (print remote_addr : String)
    (existing : Option AccountRecord)
    → Grows (enroll deps jws binding print remote_addr existing)
unfolding enroll
enroll-Grows deps jws binding print remote_addr none =
    search (acme_grows, bound_token-Grows, create_account-Grows)
enroll-Grows deps jws binding print remote_addr (some a) = respond-Grows _ _ _

-- POST /v1/acme/new-account leaves a datastore that extends the one it found, whatever the request and
-- whatever fails.
pub handle_new_account-Grows :
    (deps : Deps) (body : Option Octets) (remote_addr : String)
    → Grows (handle_new_account deps body remote_addr)
unfolding handle_new_account
handle_new_account-Grows deps body remote_addr =
    search (acme_grows, find_account-Grows, enroll-Grows) depth 20

requested_role-Grows : (o : Option (Option String)) → Grows (requested_role o)
unfolding requested_role
requested_role-Grows none = Evolves-pure _
requested_role-Grows (some none) = Evolves-raise _
requested_role-Grows (some (some s)) = Evolves-pure _

role_or_problem-Grows : (o : Option ClientRole) → Grows (role_or_problem o)
unfolding role_or_problem
role_or_problem-Grows none = Evolves-raise _
role_or_problem-Grows (some role) = Evolves-pure role

pub handle_issue_eab_token-Grows :
    (body : Option (Option String)) (remote_addr : String)
    → Grows (handle_issue_eab_token body remote_addr)
unfolding handle_issue_eab_token
handle_issue_eab_token-Grows body remote_addr =
    search (issuing_grows, requested_role-Grows, role_or_problem-Grows) depth 18
