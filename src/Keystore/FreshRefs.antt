-- ===== src/Keystore/FreshRefs.antt =====
-- What FreshRef hands out.
use Prim.Native.String
use mathlib.Core.Path.{subst}
use trust_mate.Common.{ℕ, zero, suc, ◌+◌, ◌≡◌, String, true, false, arith, inl, inr, Option-cases}
use trust_mate.World.{World}
use trust_mate.Exec.{ok, ◌>>=◌, random_text}
use trust_mate.Exec.Inversion.{Result-cases}
use trust_mate.Exec.Evolves.{
  Evolves, Evolves-bind, Evolves-if, Evolves-pure, Evolves-raise, Evolves-random_text, SameDb,
  SameDb-preorder,
}
use trust_mate.Keystore.Store.{KeyStore}
use trust_mate.Keystore.Refs.{fresh_ref_attempts, fresh_ref_loop, fresh_ref}

fresh_ref_loop-same :
    (ks : KeyStore) (prefix : String) (left : ℕ) → Evolves SameDb (fresh_ref_loop ks prefix left)
unfolding fresh_ref_loop
fresh_ref_loop-same ks prefix zero = Evolves-raise _
fresh_ref_loop-same ks prefix (suc left) =
    let again = fresh_ref_loop-same ks prefix left in
    Evolves-bind _ _ (Evolves-random_text 4) (λ suffix.
      Evolves-bind _ _ (ks.exists_same _) (λ found. Evolves-if found _ _ again (Evolves-pure _)))

pub fresh_ref-same : (ks : KeyStore) (prefix : String) → Evolves SameDb (fresh_ref ks prefix)
unfolding fresh_ref
fresh_ref-same ks prefix = fresh_ref_loop-same ks prefix fresh_ref_attempts

-- a ref that a call of Exists found free, with the prefix
pub record IsFreshRef (ks : KeyStore) (prefix ref : String) : Type 0 where
  pub suffix : String
  pub shape : ref ≡ String.◌++◌ prefix (String.◌++◌ "-" suffix)
  pub asked : World
  pub free : (ks.exists ref asked).0 ≡ ok false

fresh_ref_loop-IsFreshRef :
    (ks : KeyStore) (prefix : String) (left : ℕ) (w : World) (ref : String)
    → (fresh_ref_loop ks prefix left w).0 ≡ ok ref
    → IsFreshRef ks prefix ref
unfolding fresh_ref_loop random_text ◌>>=◌
fresh_ref_loop-IsFreshRef ks prefix zero w ref h = absurd (ground (arith, h))
fresh_ref_loop-IsFreshRef ks prefix (suc left) w ref h =
    elim (Option-cases (w.env.random w.tick 4)) [
      | inl e ↦ absurd (ground (arith, h, e))
      | inr (s, e) ↦
          (let u : World = record w { tick = w.tick + 1 } in
            let tried = String.◌++◌ prefix (String.◌++◌ "-" s) in
            elim (Result-cases (ks.exists tried u).0) [
              | inr (x, f) ↦ absurd (ground (arith, h, e, f))
              | inl (true, f) ↦
                  fresh_ref_loop-IsFreshRef ks prefix left (ks.exists tried u).1 ref
                    (ground (arith, h, e, f))
              | inl (false, f) ↦
                  (let same : tried ≡ ref = ground (arith, h, e, f) in
                    record {
                      suffix = s;
                      shape = ground (arith, same);
                      asked = u;
                      free = subst (λ t. (ks.exists t u).0 ≡ ok false) same f;
                    })
            ])
    ]

-- With any keystore, a ref that FreshRef returns has the prefix and was found free by Exists.
pub fresh_ref-IsFreshRef :
    (ks : KeyStore) (prefix : String) (w : World) (ref : String)
    → (fresh_ref ks prefix w).0 ≡ ok ref
    → IsFreshRef ks prefix ref
unfolding fresh_ref
fresh_ref-IsFreshRef ks prefix w ref h =
    fresh_ref_loop-IsFreshRef ks prefix fresh_ref_attempts w ref h
