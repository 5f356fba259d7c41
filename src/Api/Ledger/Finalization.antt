-- ===== src/Api/Ledger/Finalization.antt =====
-- Finalization: what a successful answer means for the order.
use mathlib.Core.Path.{subst}
use trust_mate.Common.{◌≡◌, ◌≢◌, refl, String, Bool, true, arith, inl, inr, Bool-cases, ℕ}
use trust_mate.Store.Records.{AccountRecord, OrderRecord, ready, processing}
use trust_mate.Store.Orders.{update_status}
use trust_mate.Store.Extends.{Extends, Extends-preorder, IsKeyed}
use trust_mate.Store.Claims.{update_status_once}
use trust_mate.Acme.Types.{Jws}
use trust_mate.World.{World}
use trust_mate.Exec.{ok, err, ◌>>=◌, attempt, try}
use trust_mate.Exec.Inversion.{Result-cases}
use trust_mate.Api.Http.{Response}
use trust_mate.Api.Deps.{Deps}
use trust_mate.Api.Growth.Orders.{finalize_csr-Grows, issue_for_order-Grows}
use trust_mate.Api.Acme.Requests.{attach_nonce, acme_problem}
use trust_mate.Api.Acme.Orders.{finalize_csr, finalize_ready}

pub acme_problem-err :
    {A : Type 0} (status : ℕ) (type : String) (w : World)
    → (e : Response) × ((acme_problem {A = A} status type w).0 ≡ err e)
unfolding acme_problem ◌>>=◌ attach_nonce try
acme_problem-err status type w = (_, refl)

-- the claim inside a finalization: the state in which it was made, and what it left
record Claimed (o : OrderRecord) (w v : World) : Type 0 where
  at : World
  reached : Extends w.db at.db
  won : (update_status o.id ready processing o.cert_serial at).0 ≡ ok true
  kept : Extends (update_status o.id ready processing o.cert_serial at).1.db v.db

finalize_ready-ok :
    (deps : Deps) (jws : Jws) (account : AccountRecord) (o : OrderRecord) (w : World)
    (resp : Response)
    → (finalize_ready deps jws account o w).0 ≡ ok resp
    → Claimed o w (finalize_ready deps jws account o w).1
unfolding finalize_ready ◌>>=◌ attempt
finalize_ready-ok deps jws account o w resp h = elim (Result-cases (finalize_csr jws o w).0) [
  | inr (e, p) ↦ absurd (ground (arith, h, p))
  | inl (csr, p) ↦
      (let u = (finalize_csr jws o w).1 in
        let v = (update_status o.id ready processing o.cert_serial u).1 in
        elim (Result-cases (update_status o.id ready processing o.cert_serial u).0) [
          | inr (e, q) ↦
              (let (_, z) = acme_problem-err {A = Bool} 500 "serverInternal" v in
                absurd (ground (arith, h, p, q, z)))
          | inl (b, q) ↦ (elim (Bool-cases b) [
            | inr x ↦
                (let (_, z) = acme_problem-err {A = Response} 403 "orderNotReady" v in
                  absurd (ground (arith, h, p, q, x, z)))
            | inl x ↦ record {
              at = u;
              reached = (finalize_csr-Grows jws o).at w;
              won = ground (arith, q, x);
              kept =
                  subst (λ d. Extends v.db d) (ground (arith, p, q, x))
                    ((issue_for_order-Grows deps account o csr).at v);
            }
          ])
        ])
]

-- With unique keys, of the requests that finalize an order that they read as ready, at most one
-- is answered with success, whoever asks, however the requests in between have extended the
-- datastore and whatever fails.
pub finalize_ready_once :
    (deps : Deps) (jws jws' : Jws) (account account' : AccountRecord) (o o' : OrderRecord)
    (w v : World) (resp resp' : Response)
    → IsKeyed w.db
    → o'.id ≡ o.id
    → (finalize_ready deps jws account o w).0 ≡ ok resp
    → Extends (finalize_ready deps jws account o w).1.db v.db
    → (finalize_ready deps jws' account' o' v).0 ≢ ok resp'
finalize_ready_once deps jws jws' account account' o o' w v resp resp' u same h x h' =
    let a = finalize_ready-ok deps jws account o w resp h in
    let b = finalize_ready-ok deps jws' account' o' v resp' h' in
    let first = update_status o.id ready processing o.cert_serial a.at in
    let between =
      Extends-preorder.then_also first.1.db _ b.at.db a.kept
        (Extends-preorder.then_also _ v.db b.at.db x b.reached) in
    update_status_once o.id ready processing processing o.cert_serial o'.cert_serial a.at b.at
      (omega arith) (a.reached.keyed u) a.won between
      (subst (λ i. (update_status i ready processing o'.cert_serial b.at).0 ≡ ok true) same b.won)
