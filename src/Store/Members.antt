-- ===== src/Store/Members.antt =====
-- Which rows SELECT with a WHERE clause and ORDER BY returns.
use mathlib.Core.List.{Memᴰ}
use mathlib.Core.List.Memᴰ
use trust_mate.Common.{
  ℕ, ◌≡◌, Bool, true, some, List, [], ◌∷◌, select, order_by, arith, inl, inr, if◌then◌else◌,
  Bool-cases, leb, insert_by,
}
use mathlib.Core.Path.{subst}
use trust_mate.Store.Table.{first_where}

module _ {ℓ} {A : Type ℓ} where
  pub first_where-Memᴰ :
      (p : A → Bool) (rows : List A) (r : A) → first_where p rows ≡ some r → Memᴰ r rows
  unfolding first_where
  first_where-Memᴰ p [] r h = absurd (ground (arith, h))
  first_where-Memᴰ p (x ∷ rows) r h = elim (Bool-cases (p x)) [
    | inl e ↦ Memᴰ.head (ground (arith, h, e))
    | inr e ↦ Memᴰ.tail (first_where-Memᴰ p rows r (ground (arith, h, e)))
  ]

  pub Memᴰ-select :
      (p : A → Bool) (x : A) (xs : List A) → p x ≡ true → Memᴰ x xs → Memᴰ x (select p xs)
  Memᴰ-select p x [] h m = elim m [ ]
  Memᴰ-select p x (y ∷ ys) h (Memᴰ.head e) =
      let k : p y ≡ true = subst (λ z. p z ≡ true) e h in rw k (Memᴰ.head e)
  Memᴰ-select p x (y ∷ ys) h (Memᴰ.tail m) =
      let rest = Memᴰ-select p x ys h m in
      elim (Bool-cases (p y)) [ inl e ↦ rw e (Memᴰ.tail rest) | inr e ↦ rw e rest ]

  pub select-Memᴰ :
      (p : A → Bool) (x : A) (xs : List A) → Memᴰ x (select p xs) → Memᴰ x xs × (p x ≡ true)
  select-Memᴰ p x [] m = elim m [ ]
  select-Memᴰ p x (y ∷ ys) m = elim (Bool-cases (p y)) [
    | inl e ↦
        (elim (Memᴰ.cases_cons
          (subst (λ b. Memᴰ x (if b then y ∷ select p ys else select p ys)) e m)) [
            | inl f ↦ (Memᴰ.head f, ground (arith, e, f))
            | inr n ↦ let (k, h) = select-Memᴰ p x ys n in (Memᴰ.tail k, h)
          ])
    | inr e ↦
        (let (n, h) =
            select-Memᴰ p x ys
              (subst (λ b. Memᴰ x (if b then y ∷ select p ys else select p ys)) e m) in
          (Memᴰ.tail n, h))
  ]

module _ {ℓ} {A : Type ℓ} (by : A → ℕ) where
  Memᴰ-insert_by : (z x : A) (xs : List A) → Memᴰ z (x ∷ xs) → Memᴰ z (insert_by by x xs)
  Memᴰ-insert_by z x [] m = m
  Memᴰ-insert_by z x (y ∷ ys) m = elim (Bool-cases (leb (by x) (by y))) [
    | inl e ↦ rw e m
    | inr e ↦ rw e (elim (Memᴰ.cases_cons m) [
      | inl f ↦ Memᴰ.tail (Memᴰ-insert_by z x ys (Memᴰ.head f))
      | inr n ↦ (elim (Memᴰ.cases_cons n) [
        | inl g ↦ Memᴰ.head g
        | inr k ↦ Memᴰ.tail (Memᴰ-insert_by z x ys (Memᴰ.tail k))
      ])
    ])
  ]

  insert_by-Memᴰ : (z x : A) (xs : List A) → Memᴰ z (insert_by by x xs) → Memᴰ z (x ∷ xs)
  insert_by-Memᴰ z x [] m = m
  insert_by-Memᴰ z x (y ∷ ys) m =
      let shape : Bool → List A = λ b. if b then x ∷ y ∷ ys else y ∷ insert_by by x ys in
      elim (Bool-cases (leb (by x) (by y))) [
        | inl e ↦ subst (λ b. Memᴰ z (shape b)) e m
        | inr e ↦ (elim (Memᴰ.cases_cons (subst (λ b. Memᴰ z (shape b)) e m)) [
          | inl f ↦ Memᴰ.tail (Memᴰ.head f)
          | inr n ↦ (elim (Memᴰ.cases_cons (insert_by-Memᴰ z x ys n)) [
            | inl g ↦ Memᴰ.head g
            | inr k ↦ Memᴰ.tail (Memᴰ.tail k)
          ])
        ])
      ]

  pub Memᴰ-order_by : (z : A) (xs : List A) → Memᴰ z xs → Memᴰ z (order_by by xs)
  Memᴰ-order_by z [] m = m
  Memᴰ-order_by z (x ∷ xs) m =
      Memᴰ-insert_by z x (order_by by xs) (elim (Memᴰ.cases_cons m) [
        | inl e ↦ Memᴰ.head e
        | inr n ↦ Memᴰ.tail (Memᴰ-order_by z xs n)
      ])

  pub order_by-Memᴰ : (z : A) (xs : List A) → Memᴰ z (order_by by xs) → Memᴰ z xs
  order_by-Memᴰ z [] m = m
  order_by-Memᴰ z (x ∷ xs) m = elim (Memᴰ.cases_cons (insert_by-Memᴰ z x (order_by by xs) m)) [
    | inl e ↦ Memᴰ.head e
    | inr n ↦ Memᴰ.tail (order_by-Memᴰ z xs n)
  ]
