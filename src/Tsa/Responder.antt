-- ===== src/Tsa/Responder.antt =====
-- internal/tsa/responder.go. The signing identity and lastGenTime are part of the world; the intermediate
-- CA's certificate is an argument. The zero time of lastGenTime is 0.
use trust_mate.Common.{ℕ, ◌+◌, ◌*◌, ◌/◌, none, some, List, [], ◌∷◌, nat_eq, ltb, if◌then◌else◌}
use trust_mate.Store.Records.{Time, Bytes, Octets, Error}
use trust_mate.Pki.Types.{Certificate, Issuer, TimestampRequest, Timestamp}
use trust_mate.Pki.Leaf.{or_error}
use trust_mate.Exec.{Exec, ◌>>=◌, ◌>>◌, pure, raise, lift, gets, attempt, modify, now}
use trust_mate.Revocation.Crl.{second}

-- ErrMalformedRequest, ErrUnsupportedRequest, or any other error
pub data TsaError : Type 0 where
  malformed_request unsupported_request failed : TsaError

-- crypto.SHA1
abbrev pub hash_sha1 : ℕ
hash_sha1 = 3

abbrev pub policy_oid : List ℕ
policy_oid = 1 ∷ 3 ∷ 6 ∷ 1 ∷ 4 ∷ 1 ∷ 55698 ∷ 1 ∷ 1 ∷ []

unfoldable pub rotate : {E : Type 0} → Issuer → Exec E (Unit {0})
rotate issuer = modify (λ w. record w { tsa = record w.tsa { issuer = issuer } })

unfoldable pub current_issuer : {E : Type 0} → Exec E Issuer
current_issuer = gets (λ w. w.tsa.issuer)

-- Truncate(time.Second)
abbrev pub truncated : Time → Time
truncated t = t / second * second

unfoldable pub next_gen_time : Time → Time → Time
next_gen_time last at = if ltb last (truncated at) then truncated at else last + second

unfoldable pub snapshot : {E : Type 0} → Exec E (Issuer × Time)
snapshot = do
  at ← now
  t ← gets (λ w. w.tsa)
  let gen = next_gen_time t.last_gen_time at
  modify (λ w. record w { tsa = record w.tsa { last_gen_time = gen } })
  pure (t.issuer, gen)

unfoldable pub token : Certificate → TimestampRequest → Time → Timestamp
token intermediate req gen_time = record {
  hash = req.hash;
  hashed_message = req.hashed_message;
  time = gen_time;
  policy = policy_oid;
  nonce = req.nonce;
  add_tsa_certificate = req.certificates;
  certificates = if req.certificates then intermediate ∷ [] else [];
}

-- what Respond does with a request that it supports
unfoldable pub stamp : Certificate → TimestampRequest → Exec Error Bytes
stamp intermediate req = do
  (issuer, gen_time) ← snapshot
  lib ← gets (λ w. w.env.lib)
  lift (or_error (lib.create_timestamp_response (token intermediate req gen_time) issuer))

unfoldable pub respond : Certificate → Octets → Exec TsaError Bytes
respond intermediate raw_request = do
  lib ← gets (λ w. w.env.lib)
  elim (lib.parse_timestamp_request raw_request) [
    | none ↦ raise malformed_request
    | some req ↦
        (if nat_eq req.hash hash_sha1
          then raise unsupported_request
          else attempt (stamp intermediate req) (λ _. raise failed))
  ]
