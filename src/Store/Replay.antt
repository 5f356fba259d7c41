-- ===== src/Store/Replay.antt =====
-- Replay nonces: the answers of ConsumeIfValid, one call and later ones.
use trust_mate.Common.{
  ◌/◌, ltb, eq_iff, ◌≡◌, ◌≢◌, String, Bool, true, false, Option, none, some, arith, ◌&&◌, ◌==◌,
  if◌then◌else◌, Option-cases, inl, inr, eq_refl,
}
use trust_mate.Store.Records.{Time, NonceRow}
use trust_mate.Store.Table.{by_key, key-by_key, by_key-delete, count-by_key}
use trust_mate.Store.Extends.{IsKeyed, Extends}
use trust_mate.Store.Evolution.{consume_if_valid-Grows}
use trust_mate.World.{World}
use trust_mate.Exec.{ok, ◌>>=◌, statement}
use trust_mate.Store.Timestamp.{second}
use trust_mate.Store.Nonces.{nonce_of, is_live, delete, consume_if_valid}
use trust_mate.Store.SingleUse.{IsHealthy}

-- what ConsumeIfValid promises, as a function of the row that the nonce finds
abbrev pub nonce_result : Time → Option NonceRow → Bool
nonce_result now none = false
nonce_result now (some r) = ltb (now / second) (r.expires_at / second)

-- With unique keys and a healthy datastore, ConsumeIfValid answers true exactly if the nonce is
-- in the table and its expiry's second lies after the second of now; then that nonce is gone and
-- every other is as it was, and else the table of nonces is as it was.
pub consume_if_valid-eq-nonce_result :
    (nonce : String) (now : Time) (w : World)
    → IsKeyed w.db
    → IsHealthy w
    → ((consume_if_valid nonce now w).0 ≡ ok (nonce_result now (by_key nonce_of nonce w.db.nonces)))
      × ((k : String)
          → by_key nonce_of k (consume_if_valid nonce now w).1.db.nonces ≡ (
              if nonce == k && nonce_result now (by_key nonce_of nonce w.db.nonces)
              then none
              else by_key nonce_of k w.db.nonces))
unfolding consume_if_valid ◌>>=◌ delete statement
consume_if_valid-eq-nonce_result nonce now w u h =
    let rows = w.db.nonces in
    let p : NonceRow → Bool = λ r. r.nonce == nonce && is_live now r in
    let hits = count-by_key nonce_of (is_live now) nonce rows u.nonces in
    (
      ground (arith, h w.tick, hits),
      λ k. elim (Option-cases (by_key nonce_of k rows)) [
        | inl e ↦ ground (arith, h w.tick, e, by_key-delete nonce_of p k rows u.nonces)
        | inr (r, e) ↦ ground (
          arith,
          h w.tick,
          e,
          by_key-delete nonce_of p k rows u.nonces,
          key-by_key nonce_of k rows r e,
          eq_iff nonce k,
          eq_iff k nonce,
        )
      ],
    )

-- A nonce that is not in the table is refused, whatever fails.
pub absent-consume_if_valid :
    (nonce : String) (now : Time) (w : World)
    → IsKeyed w.db
    → by_key nonce_of nonce w.db.nonces ≡ none
    → (consume_if_valid nonce now w).0 ≢ ok true
unfolding consume_if_valid ◌>>=◌ delete statement
absent-consume_if_valid nonce now w u e h =
    ground (arith, e, count-by_key nonce_of (is_live now) nonce w.db.nonces u.nonces)

consume_if_valid-gone :
    (nonce : String) (now : Time) (w : World)
    → IsKeyed w.db
    → (consume_if_valid nonce now w).0 ≡ ok true
    → by_key nonce_of nonce (consume_if_valid nonce now w).1.db.nonces ≡ none
unfolding consume_if_valid ◌>>=◌ delete statement
consume_if_valid-gone nonce now w u h =
    let rows = w.db.nonces in
    let p : NonceRow → Bool = λ r. r.nonce == nonce && is_live now r in
    let hits = count-by_key nonce_of (is_live now) nonce rows u.nonces in
    let left = by_key-delete nonce_of p nonce rows u.nonces in
    elim (Option-cases (by_key nonce_of nonce rows)) [
      | inl e ↦ absurd (ground (arith, hits, e))
      | inr (r, e) ↦
          ground (arith, hits, e, left, key-by_key nonce_of nonce rows r e, eq_refl nonce)
    ]

-- With unique keys, if ConsumeIfValid answers true for a nonce, then no later ConsumeIfValid of
-- it does, however the requests in between have extended the datastore, as long as none of them
-- issued that nonce again, at whatever times, and whatever statements fail.
pub consume_if_valid_once :
    (nonce : String) (now later : Time) (w v : World)
    → IsKeyed w.db
    → (consume_if_valid nonce now w).0 ≡ ok true
    → Extends (consume_if_valid nonce now w).1.db v.db
    → (by_key nonce_of nonce (consume_if_valid nonce now w).1.db.nonces ≡ none
        → by_key nonce_of nonce v.db.nonces ≡ none)
    → (consume_if_valid nonce later v).0 ≢ ok true
consume_if_valid_once nonce now later w v u h x kept =
    absent-consume_if_valid nonce later v
      (x.keyed (((consume_if_valid-Grows nonce now).at w).keyed u))
      (kept (consume_if_valid-gone nonce now w u h))
