-- ===== src/Tsa/Reading.antt =====
-- Respond of the time-stamp authority and the datastore.
use trust_mate.Common.{refl, nat_eq}
use trust_mate.Store.Records.{Octets}
use trust_mate.Pki.Types.{Certificate, TimestampRequest}
use trust_mate.Exec.Evolves.{
  Evolves, Evolves-attempt, Evolves-bind, Evolves-gets, Evolves-if, Evolves-lift, Evolves-modify,
  Evolves-now, Evolves-option, Evolves-pure, Evolves-raise, SameDb, SameDb-preorder,
}
use trust_mate.Tsa.Responder.{
  hash_sha1, malformed_request, unsupported_request, failed, snapshot, stamp, respond,
}

snapshot-same : {E : Type 0} → Evolves SameDb (snapshot {E = E})
unfolding snapshot
snapshot-same = Evolves-bind _ _ Evolves-now (λ at.
    Evolves-bind _ _ (Evolves-gets _)
      (λ t. Evolves-bind _ _ (Evolves-modify _ (λ w. refl)) (λ _. Evolves-pure _)))

stamp-same : (c : Certificate) (req : TimestampRequest) → Evolves SameDb (stamp c req)
unfolding stamp
stamp-same c req =
    Evolves-bind _ _ snapshot-same (λ _. Evolves-bind _ _ (Evolves-gets _) (λ lib. Evolves-lift _))

pub respond-same : (c : Certificate) (raw : Octets) → Evolves SameDb (respond c raw)
unfolding respond
respond-same c raw = Evolves-bind _ _ (Evolves-gets _) (λ lib.
    Evolves-option (lib.parse_timestamp_request raw) _ _ (Evolves-raise malformed_request) (λ req.
      Evolves-if (nat_eq req.hash hash_sha1) _ _ (Evolves-raise unsupported_request)
        (Evolves-attempt _ _ (stamp-same c req) (λ _. Evolves-raise failed))))
