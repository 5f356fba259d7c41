-- ===== src/Store/Extends/Keys.antt =====
-- The keys of the tables that are not keyed by one text: profiles by name and version, the audit log by number.
use trust_mate.Common.{
  ℕ, ◌+◌, ◌≡◌, refl, String, Bool, false, none, List, [], ◌∷◌, ◌++◌, ◌&&◌, ◌==◌, nat_eq, arith, inl,
  inr, Bool-cases, eq_iff, length,
}
use trust_mate.Store.Records.{ProfileRecord, AuditEntry}
use trust_mate.Store.Table.{first_where, update_where, first_where-append}
use trust_mate.Store.Audit
use trust_mate.Store.Extends.{IsVersioned, IsNumbered}

module _ (name : String) (version : ℕ) where
  -- a row under another name or version is not seen
  version-append :
      (rows : List ProfileRecord) (r : ProfileRecord)
      → first_where (λ x. x.name == name && nat_eq x.version version) rows ≡ none
      → (r.name == name && nat_eq r.version version) ≡ false
      → first_where (λ x. x.name == name && nat_eq x.version version) (rows ++ r ∷ []) ≡ none
  version-append rows r h k =
      rw
        (
          first_where-append (λ (x : ProfileRecord). x.name == name && nat_eq x.version version),
          h,
          k,
        )
        refl

  version-update :
      (p : ProfileRecord → Bool) (f : ProfileRecord → ProfileRecord)
      → ((r : ProfileRecord) → ((f r).name ≡ r.name) × ((f r).version ≡ r.version))
      → (rows : List ProfileRecord)
      → first_where (λ x. x.name == name && nat_eq x.version version) rows ≡ none
      → first_where (λ x. x.name == name && nat_eq x.version version) (update_where p f rows) ≡ none
  unfolding first_where update_where
  version-update p f same [] h = refl
  version-update p f same (x ∷ rows) h =
      ground (arith, h, (same x).0, (same x).1, version-update p f same rows)

same_key-sym :
    (r s : ProfileRecord)
    → (r.name == s.name && nat_eq r.version s.version)
      ≡ (s.name == r.name && nat_eq s.version r.version)
same_key-sym r s = ground (arith, eq_iff r.name s.name, eq_iff s.name r.name)

pub IsVersioned-append :
    (rows : List ProfileRecord) (r : ProfileRecord)
    → IsVersioned rows
    → first_where (λ x. x.name == r.name && nat_eq x.version r.version) rows ≡ none
    → IsVersioned (rows ++ r ∷ [])
unfolding first_where
IsVersioned-append [] r u fresh = (refl, tt)
IsVersioned-append (x ∷ rows) r (here, u) fresh = (
  version-append x.name x.version rows r here (ground (arith, fresh, same_key-sym r x)),
  IsVersioned-append rows r u (ground (arith, fresh)),
)

pub IsVersioned-update :
    (p : ProfileRecord → Bool) (f : ProfileRecord → ProfileRecord)
    → ((r : ProfileRecord) → ((f r).name ≡ r.name) × ((f r).version ≡ r.version))
    → (rows : List ProfileRecord) → IsVersioned rows
    → IsVersioned (update_where p f rows)
unfolding update_where
IsVersioned-update p f same [] u = tt
IsVersioned-update p f same (x ∷ rows) (here, u) =
    let rest = version-update x.name x.version p f same rows here in
    let more = IsVersioned-update p f same rows u in
    elim (Bool-cases (p x)) [
      | inl e ↦ rw (e, (same x).0, (same x).1) (rest, more)
      | inr e ↦ rw e (rest, more)
    ]

IsNumbered-append_row :
    (n : ℕ) (rows : List AuditEntry) (e : AuditEntry)
    → IsNumbered n rows
    → e.id ≡ length rows + n
    → IsNumbered n (rows ++ e ∷ [])
IsNumbered-append_row n [] e u h = (omega (arith, h), tt)
IsNumbered-append_row n (x ∷ rows) e (here, u) h =
    (here, IsNumbered-append_row (n + 1) rows e u (omega (arith, h)))

pub IsNumbered-append :
    (rows : List AuditEntry) (e : AuditEntry)
    → IsNumbered 1 rows
    → IsNumbered 1 (rows ++ Audit.stored e rows ∷ [])
IsNumbered-append rows e u = IsNumbered-append_row 1 rows (Audit.stored e rows) u refl
