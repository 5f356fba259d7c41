-- ===== src/Store/SingleUse.antt =====
-- External Account Binding tokens: the answers of MarkConsumed, one call and later ones.
use trust_mate.Common.{
  ℕ, ◌+◌, ◌/◌, ltb, ◌≡◌, ◌≢◌, refl, String, Bool, true, false, Option, none, some, arith, ◌&&◌,
  ◌==◌, if◌then◌else◌, Option-cases, inl, inr, eq_refl,
}
use trust_mate.Store.Records.{Time, EabTokenRecord, Error, not_found, already_consumed}
use trust_mate.Store.Table.{
  by_key, key-by_key, by_key-update, count-by_key, update_where-none, count_where-none,
  count_where-some,
}
use trust_mate.Store.Timestamp.{second}
use trust_mate.Store.EabTokens.{key_of, claimable, consume, claim, count_keys, mark_consumed}
use trust_mate.Store.Extends.{IsKeyed, Extends}
use trust_mate.Store.Evolution.{mark_consumed-Grows}
use trust_mate.World.{World}
use trust_mate.Exec.{Result, ok, err, ◌>>=◌, query}

-- The datastore answers every statement.
abbrev pub IsHealthy : World → Type 0
IsHealthy w = (n : ℕ) → w.env.fault n ≡ false

-- what MarkConsumed promises, as a function of the row that the key finds
abbrev pub claim_result : Time → Option EabTokenRecord → Result Error (Unit {0})
claim_result now none = err not_found
claim_result now (some r) =
    if r.consumed
    then err already_consumed
    else if ltb (now / second) (r.expires_at / second)
    then ok tt
    else err already_consumed

-- With unique keys and a healthy datastore, MarkConsumed answers ErrNotFound for an unknown key,
-- succeeds for a token that is not consumed and whose expiry's second lies after the second of
-- now, and answers ErrAlreadyConsumed for any other.
pub mark_consumed-eq-claim_result :
    (key_id : String) (now : Time) (w : World)
    → IsKeyed w.db
    → IsHealthy w
    → (mark_consumed key_id now w).0 ≡ claim_result now (by_key key_of key_id w.db.eab_tokens)
unfolding mark_consumed ◌>>=◌ query claim count_keys
mark_consumed-eq-claim_result key_id now w u h =
    let rows = w.db.eab_tokens in
    let p : EabTokenRecord → Bool = λ r. r.key_id == key_id && claimable now r in
    let same = update_where-none p consume rows in
    let hits = count-by_key key_of (claimable now) key_id rows u.eab_tokens in
    elim (Option-cases (by_key key_of key_id rows)) [
      | inl e ↦ ground (
        arith,
        h w.tick,
        h (w.tick + 1),
        hits,
        e,
        same,
        count_where-none (λ r. r.key_id == key_id) rows e,
      )
      | inr (r, e) ↦ ground (
        arith,
        h w.tick,
        h (w.tick + 1),
        hits,
        e,
        same,
        count_where-some (λ r. r.key_id == key_id) rows r e,
      )
    ]

-- A successful claim leaves the token consumed, whatever fails.
mark_consumed-consumed :
    (key_id : String) (now : Time) (w : World)
    → IsKeyed w.db
    → (mark_consumed key_id now w).0 ≡ ok tt
    → (r : EabTokenRecord) × (by_key key_of key_id (mark_consumed key_id now w).1.db.eab_tokens
        ≡ some r)
      × (r.consumed ≡ true)
unfolding mark_consumed ◌>>=◌ query claim count_keys
mark_consumed-consumed key_id now w u h =
    let rows = w.db.eab_tokens in
    let p : EabTokenRecord → Bool = λ r. r.key_id == key_id && claimable now r in
    let hits = count-by_key key_of (claimable now) key_id rows u.eab_tokens in
    let later = by_key-update key_of consume (λ r. refl) p key_id rows in
    elim (Option-cases (by_key key_of key_id rows)) [
      | inl e ↦ absurd (ground (arith, hits, e))
      | inr (r, e) ↦ (
        consume r,
        ground (arith, hits, e, later, key-by_key key_of key_id rows r e, eq_refl key_id),
        refl,
      )
    ]

-- A consumed token cannot be claimed, whatever fails.
consumed-mark_consumed :
    (key_id : String) (now : Time) (w : World) (r : EabTokenRecord)
    → IsKeyed w.db
    → by_key key_of key_id w.db.eab_tokens ≡ some r
    → r.consumed ≡ true
    → (mark_consumed key_id now w).0 ≢ ok tt
unfolding mark_consumed ◌>>=◌ query claim count_keys
consumed-mark_consumed key_id now w r u e c h =
    ground (arith, e, c, count-by_key key_of (claimable now) key_id w.db.eab_tokens u.eab_tokens)

-- With unique keys, if MarkConsumed succeeds for a key, then no later MarkConsumed of that key
-- succeeds, however the requests in between have extended the datastore, at whatever times, and
-- whatever statements fail.
pub mark_consumed_once :
    (key_id : String) (now later : Time) (w v : World)
    → IsKeyed w.db
    → (mark_consumed key_id now w).0 ≡ ok tt
    → Extends (mark_consumed key_id now w).1.db v.db
    → (mark_consumed key_id later v).0 ≢ ok tt
mark_consumed_once key_id now later w v u h x =
    let (r, found, used) = mark_consumed-consumed key_id now w u h in
    let (s, found', kept) = x.eab_tokens key_id r found in
    let u' = x.keyed (((mark_consumed-Grows key_id now).at w).keyed u) in
    consumed-mark_consumed key_id later v s u' found' (kept.consumed used)
