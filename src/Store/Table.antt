-- ===== src/Store/Table.antt =====
-- Statements on one table, as SQL defines them: SELECT, UPDATE and DELETE with a WHERE clause.
-- A table is the list of its rows; `key` reads the column of its primary key or of a unique index.
use trust_mate.Common.{
  ℕ, ◌+◌, ◌<◌, String, ◌≡◌, ◌≢◌, refl, Bool, true, Option, none, some, List, [], ◌∷◌, ◌++◌, arith,
  ◌==◌, eq_iff, eq_refl, ◌&&◌, if◌then◌else◌, Bool-cases, inl, inr, All,
}
use mathlib.Core.Option
use mathlib.Core.Path.{subst}

module _ {ℓ} {A : Type ℓ} where
  -- SELECT … WHERE p, the first row
  unfoldable pub first_where : (A → Bool) → List A → Option A
  first_where p [] = none
  first_where p (r ∷ rows) = let rest = first_where p rows in if p r then some r else rest

  -- UPDATE … SET f WHERE p
  unfoldable pub update_where : (A → Bool) → (A → A) → List A → List A
  update_where p f [] = []
  update_where p f (r ∷ rows) = (if p r then f r else r) ∷ update_where p f rows

  -- DELETE … WHERE p
  unfoldable pub delete_where : (A → Bool) → List A → List A
  delete_where p [] = []
  delete_where p (r ∷ rows) = let rest = delete_where p rows in if p r then rest else r ∷ rest

  -- the rows that a WHERE clause meets: RowsAffected, COUNT(1)
  unfoldable pub count_where : (A → Bool) → List A → ℕ
  count_where p [] = 0
  count_where p (r ∷ rows) = (if p r then 1 else 0) + count_where p rows

  pub first_where-append :
      (p : A → Bool) (rows : List A) (r : A)
      → first_where p (rows ++ r ∷ [])
        ≡ (elim (first_where p rows) [ some x ↦ some x | none ↦ if p r then some r else none ])
  unfolding first_where
  first_where-append p [] r = ground arith
  first_where-append p (x ∷ rows) r = ground (arith, first_where-append p rows r)

  -- what a WHERE clause finds passes it
  pub first_where_sound :
      (p : A → Bool) (rows : List A) (r : A) → first_where p rows ≡ some r → p r ≡ true
  unfolding first_where
  first_where_sound p [] r h = ground arith
  first_where_sound p (x ∷ rows) r h = ground (arith, first_where_sound p rows r)

  pub count_where-none :
      (p : A → Bool) (rows : List A) → first_where p rows ≡ none → count_where p rows ≡ 0
  unfolding first_where count_where
  count_where-none p [] h = refl
  count_where-none p (x ∷ rows) h = ground (arith, count_where-none p rows)

  pub count_where-some :
      (p : A → Bool) (rows : List A) (r : A) → first_where p rows ≡ some r → 0 < count_where p rows
  unfolding first_where count_where
  count_where-some p [] r h = ground arith
  count_where-some p (x ∷ rows) r h = ground (arith, count_where-some p rows r)

module _ {ℓ} {A : Type ℓ} where
  -- An UPDATE that meets no row changes none.
  pub update_where-none :
      (p : A → Bool) (f : A → A) (rows : List A)
      → count_where p rows ≡ 0
      → update_where p f rows ≡ rows
  unfolding update_where count_where
  update_where-none p f [] h = refl
  update_where-none p f (x ∷ rows) h = ground (arith, update_where-none p f rows)

module _ {ℓ κ} {A : Type ℓ} (P : A → Type κ) where
  pub All-first_where :
      (p : A → Bool) (rows : List A) (r : A) → first_where p rows ≡ some r → All P rows → P r
  unfolding first_where
  All-first_where p [] r h k = absurd (ground arith)
  All-first_where p (x ∷ rows) r h (k, ks) = elim (Bool-cases (p x)) [
    | inl e ↦ subst P (ground arith) k
    | inr e ↦ All-first_where p rows r (ground arith) ks
  ]

  pub All-update_where :
      (p : A → Bool) (f : A → A) (rows : List A)
      → ((r : A) → P r → P (f r))
      → All P rows
      → All P (update_where p f rows)
  unfolding update_where
  All-update_where p f [] keep h = tt
  All-update_where p f (x ∷ rows) keep (h, hs) = elim (Bool-cases (p x)) [
    | inl e ↦ rw e (keep x h, All-update_where p f rows keep hs)
    | inr e ↦ rw e (h, All-update_where p f rows keep hs)
  ]

module _ {ℓ} {A : Type ℓ} (key : A → String) where
  -- SELECT … WHERE key = k
  abbrev pub by_key : String → List A → Option A
  by_key k = first_where (λ r. key r == k)

  abbrev pub IsFresh : String → List A → Type ℓ
  IsFresh k rows = by_key k rows ≡ none

  abbrev pub IsUnique : List A → Type ℓ
  IsUnique [] = Unit {ℓ}
  IsUnique (r ∷ rows) = IsFresh (key r) rows × IsUnique rows

  pub key-by_key : (k : String) (rows : List A) (r : A) → by_key k rows ≡ some r → key r ≡ k
  key-by_key k rows r h = (eq_iff (key r) k).0 (first_where_sound (λ x. key x == k) rows r h)

  -- A row appended under another key is not seen.
  pub by_key-append_ne :
      (k : String) (rows : List A) (r : A) → key r ≢ k → by_key k (rows ++ r ∷ []) ≡ by_key k rows
  by_key-append_ne k rows r h = rw first_where-append (ground (arith, eq_iff (key r) k))

  pub by_key-append_self :
      (rows : List A) (r : A) → IsFresh (key r) rows → by_key (key r) (rows ++ r ∷ []) ≡ some r
  by_key-append_self rows r h = rw (first_where-append, h) (ground (arith, eq_refl (key r)))

  -- A row that was there is found after an append.
  pub by_key-append_old :
      (k : String) (rows : List A) (r x : A)
      → by_key k rows ≡ some x
      → by_key k (rows ++ r ∷ []) ≡ some x
  by_key-append_old k rows r x h = rw (first_where-append, h)

  pub IsUnique-append :
      (rows : List A) (r : A) → IsUnique rows → IsFresh (key r) rows → IsUnique (rows ++ r ∷ [])
  unfolding first_where
  IsUnique-append [] r u fresh = (refl, tt)
  IsUnique-append (x ∷ rows) r (here, u) fresh = (
    rw (first_where-append, here) (ground (arith, eq_iff (key x) (key r), eq_iff (key r) (key x))),
    IsUnique-append rows r u (ground arith),
  )

module _ {ℓ} {A : Type ℓ} (key : A → String) (f : A → A) (same : (r : A) → key (f r) ≡ key r) where
  -- An UPDATE that leaves the key alone acts on the row that each key finds.
  pub by_key-update :
      (p : A → Bool) (k : String) (rows : List A)
      → by_key key k (update_where p f rows)
        ≡ Option.map (λ r. if p r then f r else r) (by_key key k rows)
  unfolding first_where update_where
  by_key-update p k [] = refl
  by_key-update p k (x ∷ rows) = ground (arith, by_key-update p k rows, same x)

  IsFresh-update :
      (p : A → Bool) (k : String) (rows : List A)
      → IsFresh key k rows
      → IsFresh key k (update_where p f rows)
  IsFresh-update p k rows h = rw (by_key-update p k rows, h)

  pub IsUnique-update :
      (p : A → Bool) (rows : List A) → IsUnique key rows → IsUnique key (update_where p f rows)
  unfolding update_where
  IsUnique-update p [] u = tt
  IsUnique-update p (x ∷ rows) (fresh, u) = elim (Bool-cases (p x)) [
    | inl e ↦ rw (e, same x) (IsFresh-update p (key x) rows fresh, IsUnique-update p rows u)
    | inr e ↦ rw e (IsFresh-update p (key x) rows fresh, IsUnique-update p rows u)
  ]

module _ {ℓ} {A : Type ℓ} (key : A → String) where
  -- Where keys are unique, at most the row that the key finds meets the clause `key = k AND q`.
  pub count-by_key :
      (q : A → Bool) (k : String) (rows : List A)
      → IsUnique key rows
      → count_where (λ r. key r == k && q r) rows
        ≡ (elim (by_key key k rows) [ none ↦ 0 | some r ↦ if q r then 1 else 0 ])
  unfolding first_where count_where
  count-by_key q k [] u = refl
  count-by_key q k (x ∷ rows) (fresh, u) = elim (Bool-cases (key x == k)) [
    | inl e ↦
        let rest = subst (λ s. IsFresh key s rows) ((eq_iff (key x) k).0 e) fresh in
        ground (arith, count-by_key q k rows u, e, rest)
    | inr e ↦ ground (arith, count-by_key q k rows u, e)
  ]

  pub by_key-delete :
      (p : A → Bool) (k : String) (rows : List A)
      → IsUnique key rows
      → by_key key k (delete_where p rows)
        ≡ (elim (by_key key k rows) [ none ↦ none | some r ↦ if p r then none else some r ])
  unfolding first_where delete_where
  by_key-delete p k [] u = refl
  by_key-delete p k (x ∷ rows) (fresh, u) = elim (Bool-cases (key x == k)) [
    | inl e ↦
        let rest = subst (λ s. IsFresh key s rows) ((eq_iff (key x) k).0 e) fresh in
        ground (arith, by_key-delete p k rows u, e, rest)
    | inr e ↦ ground (arith, by_key-delete p k rows u, e)
  ]

  pub IsFresh-delete :
      (p : A → Bool) (k : String) (rows : List A)
      → IsFresh key k rows
      → IsFresh key k (delete_where p rows)
  unfolding first_where delete_where
  IsFresh-delete p k [] h = refl
  IsFresh-delete p k (x ∷ rows) h = ground (arith, IsFresh-delete p k rows)

  pub IsUnique-delete :
      (p : A → Bool) (rows : List A) → IsUnique key rows → IsUnique key (delete_where p rows)
  unfolding delete_where
  IsUnique-delete p [] u = tt
  IsUnique-delete p (x ∷ rows) (fresh, u) = elim (Bool-cases (p x)) [
    | inl e ↦ rw e (IsUnique-delete p rows u)
    | inr e ↦ rw e (IsFresh-delete p (key x) rows fresh, IsUnique-delete p rows u)
  ]

-- Rows that stay: a key that is found is found again, and its row has changed as `Kept` allows.
module _ {A : Type 0} (key : A → String) (Kept : A → A → Type 0) where
  abbrev pub KeepsRows : List A → List A → Type 0
  KeepsRows rows later =
      (k : String) (r : A)
      → by_key key k rows ≡ some r
      → (x : A) × (by_key key k later ≡ some x) × Kept r x

  module _ (same : (r : A) → Kept r r) where
    pub KeepsRows-refl : (rows : List A) → KeepsRows rows rows
    KeepsRows-refl rows k r h = (r, h, same r)

    pub KeepsRows-append : (rows : List A) (x : A) → KeepsRows rows (rows ++ x ∷ [])
    KeepsRows-append rows x k r h = (r, by_key-append_old key k rows x r h, same r)

  pub KeepsRows-trans :
      ((r s t : A) → Kept r s → Kept s t → Kept r t)
      → (xs ys zs : List A) → KeepsRows xs ys
      → KeepsRows ys zs
      → KeepsRows xs zs
  KeepsRows-trans chain xs ys zs h h' k r e =
      let (s, f, rs) = h k r e in let (t, g, st) = h' k s f in (t, g, chain r s t rs st)

  pub KeepsRows-update :
      (p : A → Bool) (f : A → A)
      → ((r : A) → key (f r) ≡ key r)
      → ((r : A) → Kept r (if p r then f r else r))
      → (rows : List A) → KeepsRows rows (update_where p f rows)
  KeepsRows-update p f same keep rows k r h =
      ((if p r then f r else r), rw (by_key-update key f same p k rows, h), keep r)
