-- ===== src/Exec/Inversion.antt =====
-- What the success of a composed action says of its parts.
use trust_mate.Common.{◌≡◌, refl, sym, ap, ◌∙◌, arith, inl, inr, ◌⊎◌}
use trust_mate.World.{World}
use trust_mate.Exec.{Result, ok, err, continue, Exec, ◌>>=◌}

pub Result-cases :
    {E A : Type 0} (r : Result E A) → ((a : A) × (r ≡ ok a)) ⊎ ((e : E) × (r ≡ err e))
Result-cases (ok a) = inl (a, refl)
Result-cases (err e) = inr (e, refl)

module _ {E A B : Type 0} where
  continue-ok :
      (f : A → Exec E B) (r : Result E A) (v : World) (b : B)
      → (continue r f v).0 ≡ ok b
      → (a : A) × (r ≡ ok a) × (continue r f v ≡ f a v)
  continue-ok f (ok a) v b h = (a, refl, refl)
  continue-ok f (err e) v b h = absurd (ground (arith, h))

  -- Where a sequence succeeds, its first part did, and the sequence is what follows it.
  pub bind-ok :
      (m : Exec E A) (f : A → Exec E B) (w : World) (b : B)
      → ((m >>= f) w).0 ≡ ok b
      → (a : A) × ((m w).0 ≡ ok a) × ((m >>= f) w ≡ f a (m w).1)
  unfolding ◌>>=◌
  bind-ok m f w b h = continue-ok f (m w).0 (m w).1 b h

  -- and what follows it succeeds from the world that it left
  pub bind-next :
      (m : Exec E A) (f : A → Exec E B) (w : World) (b : B)
      → ((m >>= f) w).0 ≡ ok b
      → (a : A) × ((m w).0 ≡ ok a) × ((f a (m w).1).0 ≡ ok b)
  bind-next m f w b h = let (a, e, same) = bind-ok m f w b h in (a, e, sym (ap (λ r. r.0) same) ∙ h)
