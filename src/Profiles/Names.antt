-- ===== src/Profiles/Names.antt =====
-- The names of key usages, printed and read.
use trust_mate.Common.{
  ℕ, zero, suc, ◌<◌, select, ◌≡◌, refl, String, Bool, true, false, none, some, List, [], ◌∷◌, ◌&&◌,
  arith, inl, inr, nat_eq, Bool-cases, Option-cases,
}
use trust_mate.Store.Table.{first_where}
use trust_mate.Profiles.Config.{
  ext_key_usages, number_of, name_of_number, key_usage_of, ext_key_usage_of, key_usage_names,
  key_usage_strings, ext_key_usage_strings,
}

-- a test that holds of every number below a bound
holds_below : (ℕ → Bool) → ℕ → Bool
holds_below p zero = true
holds_below p (suc n) = p n && holds_below p n

holds_below-at : (p : ℕ → Bool) (n k : ℕ) → holds_below p n ≡ true → k < n → p k ≡ true
unfolding holds_below
holds_below-at p zero k h l = absurd (omega (arith, l))
holds_below-at p (suc n) k h l = elim (Bool-cases (nat_eq k n)) [
  | inl e ↦ (let same : k ≡ n = ground (arith, e) in rw same (ground (arith, h)))
  | inr e ↦ holds_below-at p n k (ground (arith, h)) (ground (arith, e, l))
]

reads_back : ℕ → Bool
unfolding key_usage_of key_usage_strings key_usage_names number_of first_where
reads_back n = elim (key_usage_of 0 (key_usage_strings n)) [ none ↦ false | some k ↦ nat_eq k n ]

all_read_back : holds_below reads_back 512 ≡ true
unfolding holds_below reads_back key_usage_of key_usage_strings key_usage_names number_of
    first_where
all_read_back = refl

-- A key usage of the nine bits of crypto/x509 is read back, by toProfile, from the names that the profile
-- listing prints for it.
pub key_usage_of-key_usage_strings :
    (usage : ℕ) → usage < 512 → key_usage_of 0 (key_usage_strings usage) ≡ some usage
unfolding reads_back
key_usage_of-key_usage_strings usage l =
    let h = holds_below-at reads_back 512 usage all_read_back l in
    elim (Option-cases (key_usage_of 0 (key_usage_strings usage))) [
      | inl e ↦ absurd (ground (arith, h, e))
      | inr (k, e) ↦ ground (arith, h, e)
    ]

-- the usages that have a name
unfoldable pub has_name : ℕ → Bool
has_name eku = elim (name_of_number ext_key_usages eku) [ none ↦ false | some _ ↦ true ]

has_name-bounds : (eku : ℕ) → has_name eku ≡ true → eku < 10
unfolding has_name name_of_number first_where
has_name-bounds eku h = ground (arith, h)

-- the number that the name of a usage stands for
name_read_back : ℕ → Bool
unfolding name_of_number number_of first_where
name_read_back eku = elim (name_of_number ext_key_usages eku) [
  | none ↦ true
  | some s ↦ (elim (number_of ext_key_usages s) [ none ↦ false | some k ↦ nat_eq k eku ])
]

all_names_read_back : holds_below name_read_back 10 ≡ true
unfolding holds_below name_read_back name_of_number number_of first_where
all_names_read_back = refl

number_of-name :
    (eku : ℕ) (s : String)
    → name_of_number ext_key_usages eku ≡ some s
    → number_of ext_key_usages s ≡ some eku
unfolding name_read_back has_name
number_of-name eku s h =
    let small = has_name-bounds eku (ground (arith, h)) in
    let back = holds_below-at name_read_back 10 eku all_names_read_back small in
    elim (Option-cases (number_of ext_key_usages s)) [
      | inl e ↦ absurd (ground (arith, h, back, e))
      | inr (k, e) ↦ ground (arith, h, back, e)
    ]

-- toProfile reads back, from the names that the profile listing prints for extended key usages, those of
-- the usages that have a name, in their order.
pub ext_key_usage_of-ext_key_usage_strings :
    (ekus : List ℕ) → ext_key_usage_of (ext_key_usage_strings ekus) ≡ some (select has_name ekus)
unfolding ext_key_usage_of ext_key_usage_strings has_name
ext_key_usage_of-ext_key_usage_strings [] = refl
ext_key_usage_of-ext_key_usage_strings (eku ∷ ekus) =
    let rest = ext_key_usage_of-ext_key_usage_strings ekus in
    elim (Option-cases (name_of_number ext_key_usages eku)) [
      | inl e ↦ ground (arith, e, rest)
      | inr (s, e) ↦ ground (arith, e, rest, number_of-name eku s e)
    ]
