-- ===== src/Exec/Evolves.antt =====
-- How actions change the datastore: a reflexive and transitive relation between the tables before
-- and after, with one rule for each way to build an action.
use trust_mate.Common.{ℕ, ◌≡◌, refl, ◌∙◌, Bool, true, false, Option, none, some, if◌then◌else◌}
use trust_mate.Store.Records.{Error, Db}
use trust_mate.World.{World}
use mathlib.Core.Path.{subst}
use trust_mate.Exec.{
  Result, ok, err, continue, recover, Exec, pure, raise, lift, gets, ◌>>=◌, attempt, try, modify,
  now, statement, query, random_text, random_bytes,
}

pub record IsPreorder (R : Db → Db → Type 0) : Type 0 where
  pub same : (a : Db) → R a a
  pub then_also : (a b c : Db) → R a b → R b c → R a c

-- `m` relates the tables that it finds to those that it leaves, whether it returns or fails
pub record Evolves {E A : Type 0} (R : Db → Db → Type 0) (m : Exec E A) : Type 0 where
  pub at : (w : World) → R w.db (m w).1.db

-- the tables are as they were
abbrev pub SameDb : Db → Db → Type 0
SameDb a b = a ≡ b

instance pub SameDb-preorder : IsPreorder SameDb
SameDb-preorder = record { same = λ a. refl; then_also = λ a b c p q. p ∙ q }

pub Evolves-commit :
    {A : Type 0} (R : Db → Db → Type 0) (b : Bool) (x y : Result Error A × World) (d : Db)
    → R d x.1.db
    → R d y.1.db
    → R d (if b then x else y).1.db
Evolves-commit R true x y d h k = h
Evolves-commit R false x y d h k = k

module _ {R : Db → Db → Type 0} ⦃pre : IsPreorder R⦄ where
  pub Evolves-same : {E A : Type 0} (m : Exec E A) → Evolves SameDb m → Evolves R m
  Evolves-same m k = record { at = λ w. subst (R w.db) (k.at w) (pre.same w.db) }

  module _ {E A : Type 0} where
    pub Evolves-pure : (a : A) → Evolves R (pure {E = E} a)
    unfolding pure
    Evolves-pure a = record { at = λ w. pre.same w.db }

    pub Evolves-raise : (e : E) → Evolves R (raise {A = A} e)
    unfolding raise
    Evolves-raise e = record { at = λ w. pre.same w.db }

    pub Evolves-lift : (r : Result E A) → Evolves R (lift r)
    unfolding lift
    Evolves-lift r = record { at = λ w. pre.same w.db }

    pub Evolves-gets : (f : World → A) → Evolves R (gets {E = E} f)
    unfolding gets
    Evolves-gets f = record { at = λ w. pre.same w.db }

    pub Evolves-if :
        (b : Bool) (m n : Exec E A) → Evolves R m → Evolves R n → Evolves R (if b then m else n)
    Evolves-if true m n km kn = km
    Evolves-if false m n km kn = kn

  module _ {E A B : Type 0} where
    Evolves-continue :
        (f : A → Exec E B)
        → ((a : A) → Evolves R (f a))
        → (d : Db) (r : Result E A) (v : World) → R d v.db
        → R d (continue r f v).1.db
    Evolves-continue f kf d (ok a) v h = pre.then_also d v.db (f a v).1.db h ((kf a).at v)
    Evolves-continue f kf d (err e) v h = h

    pub Evolves-bind :
        (m : Exec E A) (f : A → Exec E B)
        → Evolves R m
        → ((a : A) → Evolves R (f a))
        → Evolves R (m >>= f)
    unfolding ◌>>=◌
    Evolves-bind m f km kf = record {
      at = λ w. Evolves-continue f kf w.db (m w).0 (m w).1 (km.at w);
    }

    pub Evolves-option :
        (o : Option A) (m : Exec E B) (f : A → Exec E B)
        → Evolves R m
        → ((a : A) → Evolves R (f a))
        → Evolves R (elim o [ none ↦ m | some a ↦ f a ])
    Evolves-option none m f km kf = km
    Evolves-option (some a) m f km kf = kf a

  module _ {E F A : Type 0} where
    Evolves-recover :
        (h : E → Exec F A)
        → ((e : E) → Evolves R (h e))
        → (d : Db) (r : Result E A) (v : World) → R d v.db
        → R d (recover r h v).1.db
    Evolves-recover h kh d (ok a) v x = x
    Evolves-recover h kh d (err e) v x = pre.then_also d v.db (h e v).1.db x ((kh e).at v)

    pub Evolves-attempt :
        (m : Exec E A) (h : E → Exec F A)
        → Evolves R m
        → ((e : E) → Evolves R (h e))
        → Evolves R (attempt m h)
    unfolding attempt
    Evolves-attempt m h km kh = record {
      at = λ w. Evolves-recover h kh w.db (m w).0 (m w).1 (km.at w);
    }

    pub Evolves-try : (m : Exec E A) → Evolves R m → Evolves R (try {F = F} m)
    unfolding try
    Evolves-try m km = record { at = km.at }

  module _ {E : Type 0} where
    pub Evolves-modify :
        (f : World → World) → ((w : World) → w.db ≡ (f w).db) → Evolves R (modify {E = E} f)
    unfolding modify
    Evolves-modify f h = record { at = λ w. subst (R w.db) (h w) (pre.same w.db) }

    pub Evolves-now : Evolves R (now {E = E})
    unfolding now
    Evolves-now = record { at = λ w. pre.same w.db }

  module _ {A : Type 0} where
    -- What a statement does to the tables where it runs is what it does to the world.
    pub Evolves-statement :
        (run : Db → Result Error A × Db) → ((d : Db) → R d (run d).1) → Evolves R (statement run)
    unfolding statement
    Evolves-statement run h = record {
      at = λ w. Evolves-commit R (w.env.fault w.tick) _ _ w.db (pre.same w.db) (h w.db);
    }

    pub Evolves-query : (run : Db → Result Error A) → Evolves R (query run)
    unfolding query
    Evolves-query run = Evolves-statement (λ d. (run d, d)) pre.same

  pub Evolves-random_text : (n : ℕ) → Evolves R (random_text n)
  unfolding random_text
  Evolves-random_text n = record { at = λ w. pre.same w.db }

  pub Evolves-random_bytes : (n : ℕ) → Evolves R (random_bytes n)
  unfolding random_bytes
  Evolves-random_bytes n = record { at = λ w. pre.same w.db }

pub ruleset evolves_rules = (
  Evolves-pure, Evolves-raise, Evolves-lift, Evolves-gets, Evolves-if, Evolves-bind,
  Evolves-attempt, Evolves-try, Evolves-now, Evolves-query, Evolves-random_text,
  Evolves-random_bytes,
)
