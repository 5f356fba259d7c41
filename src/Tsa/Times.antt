-- ===== src/Tsa/Times.antt =====
-- The times of the tokens that the time-stamp authority issues.
use mathlib.Core.Path.{subst}
use trust_mate.Common.{
  ℕ, ◌+◌, ◌*◌, ◌/◌, ◌<◌, ◌≤◌, ◌≡◌, refl, sym, false, Option, some, List, [], ◌∷◌, arith, inl, inr,
  Option-cases, Bool-cases, nat_eq, ltb,
}
use trust_mate.Store.Records.{Time, Bytes, Octets, Error}
use trust_mate.Pki.Types.{Certificate, Issuer, TimestampRequest, Timestamp}
use trust_mate.Pki.Library.{Library}
use trust_mate.World.{World}
use trust_mate.Exec.{ok, err, ◌>>=◌, attempt, modify, now}
use trust_mate.Exec.Inversion.{Result-cases}
use trust_mate.Revocation.Crl.{second}
use trust_mate.Tsa.Responder.{
  TsaError, hash_sha1, rotate, truncated, next_gen_time, snapshot, token, stamp, respond,
}

-- a whole number of seconds
abbrev pub IsWhole : Time → Type 0
IsWhole t = (k : ℕ) × (t ≡ k * second)

next_gen_time-later : (last at : Time) → last < next_gen_time last at
unfolding next_gen_time
next_gen_time-later last at = ground arith

next_gen_time-IsWhole : (last at : Time) → IsWhole last → IsWhole (next_gen_time last at)
unfolding next_gen_time
next_gen_time-IsWhole last at (k, e) = elim (Bool-cases (ltb last (truncated at))) [
  | inl h ↦ (at / second, ground (arith, h))
  | inr h ↦ (k + 1, ground (arith, h, e))
]

-- what stamping leaves: a later time, whether the signature succeeds or not
stamp-time :
    (c : Certificate) (req : TimestampRequest) (w : World)
    → (stamp c req w).1.tsa
      ≡ record w.tsa { last_gen_time = next_gen_time w.tsa.last_gen_time (w.env.clock w.tick) }
unfolding stamp snapshot now modify ◌>>=◌
stamp-time c req w =
    let t = token c req (next_gen_time w.tsa.last_gen_time (w.env.clock w.tick)) in
    elim (Option-cases (w.env.lib.create_timestamp_response t w.tsa.issuer)) [
      | inl e ↦ ground (arith, e)
      | inr (d, e) ↦ ground (arith, e)
    ]

stamp-signed :
    (c : Certificate) (req : TimestampRequest) (w : World) (der : Bytes)
    → (stamp c req w).0 ≡ ok der
    → w.env.lib.create_timestamp_response
        (token c req (next_gen_time w.tsa.last_gen_time (w.env.clock w.tick)))
        w.tsa.issuer
      ≡ some der
unfolding stamp snapshot now modify ◌>>=◌
stamp-signed c req w der h =
    let t = token c req (next_gen_time w.tsa.last_gen_time (w.env.clock w.tick)) in
    elim (Option-cases (w.env.lib.create_timestamp_response t w.tsa.issuer)) [
      | inl e ↦ absurd (ground (arith, h, e))
      | inr (d, e) ↦ ground (arith, h, e)
    ]

-- the token of a request: the imprint, hash and nonce of the request, signed by the current identity, at the
-- time that the responder now remembers
pub record IsToken (c : Certificate) (raw : Octets) (w v : World) (der : Bytes) : Type 0 where
  pub req : TimestampRequest
  pub parsed : w.env.lib.parse_timestamp_request raw ≡ some req
  pub supported : nat_eq req.hash hash_sha1 ≡ false
  pub signed :
      w.env.lib.create_timestamp_response (token c req v.tsa.last_gen_time) w.tsa.issuer ≡ some der
  pub later : w.tsa.last_gen_time < v.tsa.last_gen_time
  pub kept : v.tsa.issuer ≡ w.tsa.issuer
  pub whole : IsWhole w.tsa.last_gen_time → IsWhole v.tsa.last_gen_time

-- Where Respond returns, the token is of the request, which is not a SHA-1 one, and it is signed by the
-- identity of that moment at a time strictly later than any that the responder has handed out before, which
-- is a whole second if that one was.
pub respond-IsToken :
    (c : Certificate) (raw : Octets) (w : World) (der : Bytes)
    → (respond c raw w).0 ≡ ok der
    → IsToken c raw w (respond c raw w).1 der
unfolding respond attempt ◌>>=◌
respond-IsToken c raw w der h = elim (Option-cases (w.env.lib.parse_timestamp_request raw)) [
  | inl e ↦ absurd (ground (arith, h, e))
  | inr (req, e) ↦ (elim (Bool-cases (nat_eq req.hash hash_sha1)) [
    | inl s ↦ absurd (ground (arith, h, e, s))
    | inr s ↦ (elim (Result-cases (stamp c req w).0) [
      | inr (x, k) ↦ absurd (ground (arith, h, e, s, k))
      | inl (d, k) ↦
          (let last = w.tsa.last_gen_time in
            let at = w.env.clock w.tick in
            let now_at : (respond c raw w).1.tsa
                ≡ record w.tsa { last_gen_time = next_gen_time last at } =
              ground (arith, e, s, k, stamp-time c req w) in
            let same : d ≡ der = ground (arith, h, e, s, k) in
            record {
              req = req;
              parsed = e;
              supported = s;
              signed = rw now_at (stamp-signed c req w der (ground (arith, k, same)));
              later = rw now_at (next_gen_time-later last at);
              kept = rw now_at refl;
              whole = λ p. rw now_at (next_gen_time-IsWhole last at p);
            })
    ])
  ])
]

-- a request that fails never moves the time back, and keeps it a whole second
respond-err :
    (c : Certificate) (raw : Octets) (w : World) (x : TsaError)
    → (respond c raw w).0 ≡ err x
    → (w.tsa.last_gen_time ≤ (respond c raw w).1.tsa.last_gen_time)
      × (IsWhole w.tsa.last_gen_time → IsWhole (respond c raw w).1.tsa.last_gen_time)
unfolding respond attempt ◌>>=◌
respond-err c raw w x h = elim (Option-cases (w.env.lib.parse_timestamp_request raw)) [
  | inl e ↦ (ground (arith, e), λ p. rw e p)
  | inr (req, e) ↦ (elim (Bool-cases (nat_eq req.hash hash_sha1)) [
    | inl s ↦ (ground (arith, e, s), λ p. rw (e, s) p)
    | inr s ↦ (elim (Result-cases (stamp c req w).0) [
      | inr (y, k) ↦
          (let last = w.tsa.last_gen_time in
            let at = w.env.clock w.tick in
            let now_at : (respond c raw w).1.tsa
                ≡ record w.tsa { last_gen_time = next_gen_time last at } =
              ground (arith, e, s, k, stamp-time c req w) in
            (
              ground (arith, now_at, next_gen_time-later last at),
              λ p. rw now_at (next_gen_time-IsWhole last at p),
            ))
      | inl (d, k) ↦ absurd (ground (arith, h, e, s, k))
    ])
  ])
]

-- a reader of tokens that reads the time of every response that the library signs; a token's genTime has
-- whole seconds
abbrev pub ReadsTime : (Bytes → Option Time) → Library → Type 0
ReadsTime time_of lib =
    (t : Timestamp) (i : Issuer) (der : Bytes)
    → IsWhole t.time
    → lib.create_timestamp_response t i ≡ some der
    → time_of der ≡ some t.time

-- the authority's life between two starts, with the times that are read from the tokens that it returns:
-- requests, rotations, and whatever else leaves its state alone, in any order
pub data Life (c : Certificate) (lib : Library) (time_of : Bytes → Option Time)
    : World → List Time → World → Type 0 where
  done : (w : World) → Life c lib time_of w [] w
  stamped :
      (raw : Octets) (der : Bytes) (t : Time) (w v : World) (times : List Time)
      → w.env.lib ≡ lib
      → (respond c raw w).0 ≡ ok der
      → time_of der ≡ some t
      → Life c lib time_of (respond c raw w).1 times v
      → Life c lib time_of w (t ∷ times) v
  refused :
      (raw : Octets) (x : TsaError) (w v : World) (times : List Time)
      → (respond c raw w).0 ≡ err x
      → Life c lib time_of (respond c raw w).1 times v
      → Life c lib time_of w times v
  rotated :
      (issuer : Issuer) (w v : World) (times : List Time)
      → Life c lib time_of (rotate {E = Error} issuer w).1 times v
      → Life c lib time_of w times v
  elsewhere :
      (w u v : World) (times : List Time)
      → u.tsa ≡ w.tsa
      → Life c lib time_of u times v
      → Life c lib time_of w times v

-- each later than the one before, the first later than `last`
abbrev pub IsIncreasing : Time → List Time → Type 0
IsIncreasing last [] = Unit
IsIncreasing last (t ∷ times) = (last < t) × IsIncreasing t times

IsIncreasing-le :
    (a b : Time) (times : List Time) → a ≤ b → IsIncreasing b times → IsIncreasing a times
IsIncreasing-le a b [] h k = tt
IsIncreasing-le a b (t ∷ times) h (k, ks) = (omega (arith, h, k), ks)

-- the time that is read from a token is the one that the responder remembers
IsToken-time :
    (c : Certificate) (lib : Library) (time_of : Bytes → Option Time) (raw : Octets) (der : Bytes)
    (w v : World) (t : Time)
    → ReadsTime time_of lib
    → w.env.lib ≡ lib
    → IsWhole v.tsa.last_gen_time
    → IsToken c raw w v der
    → time_of der ≡ some t
    → v.tsa.last_gen_time ≡ t
unfolding token
IsToken-time c lib time_of raw der w v t reads same whole k read =
    let made =
      subst
        (λ l.
          l.create_timestamp_response (token c k.req v.tsa.last_gen_time) w.tsa.issuer ≡ some der)
        same k.signed in
    ground (arith, reads (token c k.req v.tsa.last_gen_time) w.tsa.issuer der whole made, read)

-- Between two starts of the service, through any sequence of requests, failures, key rotations and other
-- events that leave the responder alone, and whatever the clock says, also where it goes back, the times that
-- a reader finds in the tokens that Respond returns increase strictly, and are later than the last one that
-- it had handed out before, where that is a whole second, as at a start, and where the reader reads the
-- time of what the library signs.
pub Life-IsIncreasing :
    (c : Certificate) (lib : Library) (time_of : Bytes → Option Time) (w v : World)
    (times : List Time)
    → ReadsTime time_of lib
    → IsWhole w.tsa.last_gen_time
    → Life c lib time_of w times v
    → IsIncreasing w.tsa.last_gen_time times
unfolding rotate modify
Life-IsIncreasing c lib time_of w v _ reads p (done _) = tt
Life-IsIncreasing c lib time_of w v _ reads p (stamped raw der t _ _ times same h read more) =
    let k = respond-IsToken c raw w der h in
    let at = IsToken-time c lib time_of raw der w _ t reads same (k.whole p) k read in
    subst (λ x. (w.tsa.last_gen_time < x) × IsIncreasing x times) at
      (k.later, Life-IsIncreasing c lib time_of _ v times reads (k.whole p) more)
Life-IsIncreasing c lib time_of w v _ reads p (refused raw x _ _ times h more) =
    let (later, whole) = respond-err c raw w x h in
    IsIncreasing-le _ _ times later (Life-IsIncreasing c lib time_of _ v times reads (whole p) more)
Life-IsIncreasing c lib time_of w v _ reads p (rotated issuer _ _ times more) =
    Life-IsIncreasing c lib time_of _ v times reads p more
Life-IsIncreasing c lib time_of w v _ reads p (elsewhere _ u _ times same more) =
    subst (λ t. IsIncreasing t.last_gen_time times) same
      (Life-IsIncreasing c lib time_of u v times reads
        (subst (λ t. IsWhole t.last_gen_time) (sym same) p) more)
