-- ===== src/Exec.antt =====
-- Go code that talks to the datastore, the clock and the random source, and that may return an
-- error. What was written before an error stays written, so the world comes back beside it.
pub mod Evolves
pub mod Inversion
use trust_mate.Common.{ℕ, ◌+◌, String, Bool, true, false, Option, none, some, List, if◌then◌else◌}
use trust_mate.Store.Records.{Time, Error, other, Db}
use trust_mate.World.{World}

pub data Result (E A : Type 0) : Type 0 where
  ok : A → Result E A
  err : E → Result E A

abbrev pub Exec : Type 0 → Type 0 → Type 0
Exec E A = World → Result E A × World

module _ {E A : Type 0} where
  pub pure : A → Exec E A
  pure a w = (ok a, w)

  pub raise : E → Exec E A
  raise e w = (err e, w)

  pub lift : Result E A → Exec E A
  lift r w = (r, w)

  pub gets : (World → A) → Exec E A
  gets f w = (ok (f w), w)

module _ {E A B : Type 0} where
  abbrev pub continue : Result E A → (A → Exec E B) → Exec E B
  continue (ok a) f w = f a w
  continue (err e) f w = (err e, w)

  infixl 10 ◌>>=◌ ◌>>◌
  -- opening this opens `pure`, `raise`, `lift` and `gets` too
  unfoldable pub ◌>>=◌ : Exec E A → (A → Exec E B) → Exec E B
  unfolding pure raise lift gets
  ◌>>=◌ m f w = let (r, w') = m w in continue r f w'

  abbrev pub ◌>>◌ : Exec E A → Exec E B → Exec E B
  m >> n = m >>= λ _. n

module _ {E F A : Type 0} where
  abbrev pub recover : Result E A → (E → Exec F A) → Exec F A
  recover (ok a) h w = (ok a, w)
  recover (err e) h w = h e w

  -- `if err != nil { … }`: the handler sees the world as the call left it
  unfoldable pub attempt : Exec E A → (E → Exec F A) → Exec F A
  attempt m h w = let (r, w') = m w in recover r h w'

module _ {E A : Type 0} where
  abbrev pub outcome : Result E A → Option A
  outcome (ok a) = some a
  outcome (err e) = none

module _ {E F A : Type 0} where
  -- a call whose error is dropped or only logged
  unfoldable pub try : Exec E A → Exec F (Option A)
  try m w = let (r, w') = m w in (ok (outcome r), w')

module _ {E : Type 0} where
  unfoldable pub modify : (World → World) → Exec E (Unit {0})
  modify f w = (ok tt, f w)

  -- time.Now()
  unfoldable pub now : Exec E Time
  now w = (ok (w.env.clock w.tick), record w { tick = w.tick + 1 })

module _ {A : Type 0} where
  -- One SQL statement. It runs whole or, where the datastore fails, not at all.
  unfoldable pub statement : (Db → Result Error A × Db) → Exec Error A
  statement run w =
      let (r, db') = run w.db in
      if w.env.fault w.tick
      then (err other, record w { tick = w.tick + 1 })
      else (r, record w { tick = w.tick + 1; db = db' })

  -- a SELECT
  unfoldable pub query : (Db → Result Error A) → Exec Error A
  unfolding statement
  query run = statement (λ db. (run db, db))

-- rand.Read into a buffer of `n` bytes, and its text encoding: hex for identifiers, unpadded
-- base64url for nonces. Only equality of such texts matters.
unfoldable pub random_text : ℕ → Exec Error String
random_text n w = (
  (elim (w.env.random w.tick n) [ none ↦ err other | some s ↦ ok s ]),
  record w { tick = w.tick + 1 },
)

-- rand.Read into a buffer of `n` bytes that are used as numbers
unfoldable pub random_bytes : ℕ → Exec Error (List ℕ)
random_bytes n w = (
  (elim (w.env.random_bytes w.tick n) [ none ↦ err other | some bs ↦ ok bs ]),
  record w { tick = w.tick + 1 },
)
