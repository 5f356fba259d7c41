-- ===== src/Api/Ledger/Enrollment.antt =====
-- Enrollment: what an answer with a new account means for its token.
use mathlib.Core.Path.{subst}
use trust_mate.Common.{◌≡◌, ◌≢◌, ◌+◌, String, arith, inl, inr}
use trust_mate.Store.Records.{
  Time, EabTokenRecord, Error, not_found, already_revoked, already_consumed, already_exists, other,
}
use trust_mate.Store.EabTokens.{mark_consumed}
use trust_mate.Store.Extends.{Extends, Extends-preorder, IsKeyed}
use trust_mate.Store.SingleUse.{mark_consumed_once}
use trust_mate.Acme.Types.{Jws}
use trust_mate.World.{World}
use trust_mate.Exec.{ok, err, ◌>>=◌, attempt, now}
use trust_mate.Exec.Inversion.{Result-cases}
use trust_mate.Api.Http.{Response}
use trust_mate.Api.Deps.{Deps}
use trust_mate.Api.Growth.Enrollment.{add_account-Grows}
use trust_mate.Api.Ledger.Finalization.{acme_problem-err}
use trust_mate.Api.Acme.Enrollment.{claim_problem, create_account}

claim_problem-err :
    {A : Type 0} (e : Error) (w : World) → (r : Response) × ((claim_problem {A = A} e w).0 ≡ err r)
unfolding claim_problem
claim_problem-err already_consumed w = acme_problem-err _ _ w
claim_problem-err not_found w = acme_problem-err _ _ w
claim_problem-err already_revoked w = acme_problem-err _ _ w
claim_problem-err already_exists w = acme_problem-err _ _ w
claim_problem-err other w = acme_problem-err _ _ w

-- the claim inside an enrollment: its time, the state in which it was made, and what it left
record Claimed (key_id : String) (w v : World) : Type 0 where
  time : Time
  at : World
  reached : Extends w.db at.db
  won : (mark_consumed key_id time at).0 ≡ ok tt
  kept : Extends (mark_consumed key_id time at).1.db v.db

create_account-ok :
    (deps : Deps) (jws : Jws) (print remote_addr : String) (token : EabTokenRecord) (w : World)
    (resp : Response)
    → (create_account deps jws print token remote_addr w).0 ≡ ok resp
    → Claimed token.key_id w (create_account deps jws print token remote_addr w).1
unfolding create_account ◌>>=◌ attempt now
create_account-ok deps jws print remote_addr token w resp h =
    let time = w.env.clock w.tick in
    let u = record w { tick = w.tick + 1 } in
    let v = (mark_consumed token.key_id time u).1 in
    elim (Result-cases (mark_consumed token.key_id time u).0) [
      | inr (e, p) ↦
          (let (_, z) = claim_problem-err {A = Unit {0}} e v in absurd (ground (arith, h, p, z)))
      | inl (_, p) ↦ record {
        time = time;
        at = u;
        reached = Extends-preorder.same w.db;
        won = p;
        kept =
            subst (λ d. Extends v.db d) (ground (arith, p))
              ((add_account-Grows deps jws print token remote_addr time).at v);
      }
    ]

-- With unique keys, of the requests that carry one External Account Binding token, at most one
-- is answered with a new account, whatever keys they come with, however the requests in between
-- have extended the datastore and whatever fails.
pub create_account_once :
    (deps : Deps) (jws jws' : Jws) (print print' remote_addr remote_addr' : String)
    (token token' : EabTokenRecord) (w v : World) (resp resp' : Response)
    → IsKeyed w.db
    → token'.key_id ≡ token.key_id
    → (create_account deps jws print token remote_addr w).0 ≡ ok resp
    → Extends (create_account deps jws print token remote_addr w).1.db v.db
    → (create_account deps jws' print' token' remote_addr' v).0 ≢ ok resp'
create_account_once deps jws jws' print print' remote_addr remote_addr' token token' w v resp resp'
      u same h x h' =
    let a = create_account-ok deps jws print remote_addr token w resp h in
    let b = create_account-ok deps jws' print' remote_addr' token' v resp' h' in
    let first = mark_consumed token.key_id a.time a.at in
    let between =
      Extends-preorder.then_also first.1.db _ b.at.db a.kept
        (Extends-preorder.then_also _ v.db b.at.db x b.reached) in
    mark_consumed_once token.key_id a.time b.time a.at b.at (a.reached.keyed u) a.won between
      (subst (λ i. (mark_consumed i b.time b.at).0 ≡ ok tt) same b.won)
