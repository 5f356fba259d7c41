-- ===== src/Bootstrap/Serving.antt =====
-- The certificate that the service itself presents, and the ledger.
use mathlib.Core.List.{reverse, reverse-append, head?}
use mathlib.Core.Path.{subst}
use trust_mate.Common.{
  ℕ, ◌≤◌, ◌≡◌, ◌≢◌, refl, sym, ap, ◌∙◌, String, Bool, true, some, List, [], ◌∷◌, ◌++◌, ◌==◌, arith,
  inl, inr, All, Bool-cases, Option-cases, eq_iff, select, order_by, insert_by, leb, le→leb,
}
use trust_mate.Store.Records.{Time, Bytes, CertKind, intermediate, root, CertificateRecord, Error}
use trust_mate.Store.Certificates
use trust_mate.Store.Certificates.{latest_of_profile}
use trust_mate.Store.Timestamp.{column}
use trust_mate.Profiles.Types.{Profile, server_tls}
use trust_mate.Pki.Types.{Name, PublicKey}
use trust_mate.World.{World}
use trust_mate.Exec.{ok, ◌>>=◌, pure, query, statement}
use trust_mate.Exec.Inversion.{bind-next}
use trust_mate.Keystore.Store.{KeyStore}
use trust_mate.Bootstrap.Generate.{ref_server_tls}
use trust_mate.Bootstrap.Loading.{TlsConfig, latest_of_kind, der_from_pem, load_server_tls_config}
use trust_mate.Api.Deps.{Deps}
use trust_mate.Api.Issuing.{leaf_record, issue_leaf_certificate}
use trust_mate.Api.Ledger.Issuance.{issue_leaf_certificate-ok}

module _ {ℓ} {A : Type ℓ} where
  select-append :
      (p : A → Bool) (xs : List A) (x : A)
      → p x ≡ true
      → select p (xs ++ x ∷ []) ≡ select p xs ++ x ∷ []
  select-append p [] x h = rw h refl
  select-append p (y ∷ ys) x h =
      let rest = select-append p ys x h in
      elim (Bool-cases (p y)) [ inl e ↦ rw (e, rest) refl | inr e ↦ rw (e, rest) refl ]

  module _ (by : A → ℕ) where
    insert_by-append :
        (y x : A) (ys : List A)
        → by y ≤ by x
        → insert_by by y (ys ++ x ∷ []) ≡ insert_by by y ys ++ x ∷ []
    insert_by-append y x [] h = rw (le→leb (by y) (by x) h) refl
    insert_by-append y x (z ∷ zs) h =
        let rest = insert_by-append y x zs h in
        elim (Bool-cases (leb (by y) (by z))) [ inl e ↦ rw e refl | inr e ↦ rw (e, rest) refl ]

    -- a row that is not before any other comes last
    order_by-append :
        (xs : List A) (x : A)
        → All (λ y. by y ≤ by x) xs
        → order_by by (xs ++ x ∷ []) ≡ order_by by xs ++ x ∷ []
    order_by-append [] x h = refl
    order_by-append (y ∷ ys) x (h, hs) =
        ap (insert_by by y) (order_by-append ys x hs) ∙ insert_by-append y x (order_by by ys) h

  All-select : (P : A → Type 0) (p : A → Bool) (xs : List A) → All P xs → All P (select p xs)
  All-select P p [] h = h
  All-select P p (y ∷ ys) (h, hs) = elim (Bool-cases (p y)) [
    | inl e ↦ rw e (h, All-select P p ys hs)
    | inr e ↦ rw e (All-select P p ys hs)
  ]

  last-append : (xs : List A) (x : A) → head? (reverse (xs ++ x ∷ [])) ≡ some x
  last-append xs x = ap head? (reverse-append xs (x ∷ []))

-- the latest row of a profile is the one that was written last
latest_of_profile-append :
    (name : String) (rows : List CertificateRecord) (r : CertificateRecord)
    → r.profile_name ≡ name
    → All (λ x. x.created_at ≤ r.created_at) rows
    → latest_of_profile name (rows ++ r ∷ []) ≡ some r
unfolding latest_of_profile
latest_of_profile-append name rows r h newest =
    let p : CertificateRecord → Bool = λ x. x.profile_name == name in
    let last = select-append p rows r ((eq_iff r.profile_name name).1 h) in
    let ordered =
      order_by-append (λ x. x.created_at) (select p rows) r (All-select _ p rows newest) in
    ap (λ xs. head? (reverse (order_by (λ x. x.created_at) xs))) last
    ∙ ap (λ xs. head? (reverse xs)) ordered
    ∙ last-append (order_by (λ x. x.created_at) (select p rows)) r

-- the rows are read from the same environment
latest_of_kind-env : (kind : CertKind) (w : World) → (latest_of_kind kind w).1.env ≡ w.env
unfolding latest_of_kind Certificates.find_by_kind query statement ◌>>=◌
latest_of_kind-env kind w = elim (Bool-cases (w.env.fault w.tick)) [
  | inl x ↦ ground (arith, x)
  | inr x ↦ ground (arith, x)
]

get_latest_by_profile-row :
    (name : String) (w : World) (r x : CertificateRecord)
    → latest_of_profile name w.db.certificates ≡ some r
    → (Certificates.get_latest_by_profile name w).0 ≡ ok x
    → (x ≡ r) × ((Certificates.get_latest_by_profile name w).1.env ≡ w.env)
unfolding Certificates.get_latest_by_profile query statement
get_latest_by_profile-row name w r x newest h = elim (Bool-cases (w.env.fault w.tick)) [
  | inl b ↦ absurd (ground (arith, h, b))
  | inr b ↦ (ground (arith, h, b, newest), ground (arith, b))
]

der_from_pem-ok :
    (pem der : Bytes) (w : World)
    → (der_from_pem pem w).0 ≡ ok der
    → w.env.lib.pem_decode pem ≡ some der
unfolding der_from_pem ◌>>=◌
der_from_pem-ok pem der w h = elim (Option-cases (w.env.lib.pem_decode pem)) [
  | inl e ↦ absurd (ground (arith, h, e))
  | inr (d, e) ↦ ground (arith, h, e)
]

pure-ok : {A : Type 0} (a b : A) (w : World) → (pure {E = Error} a w).0 ≡ ok b → b ≡ a
unfolding ◌>>=◌
pure-ok a b w h = ground (arith, h)

-- a TLS configuration that presents the certificate of a PEM text, with the key of the service's own ref
pub record IsPresented (ks : KeyStore) (v : World) (pem : Bytes) (c : TlsConfig) : Type 0 where
  pub leaf : Bytes
  pub rest : List Bytes
  pub decoded : v.env.lib.pem_decode pem ≡ some leaf
  pub chain : c.certificate ≡ leaf ∷ rest
  pub asked : World
  pub key : (ks.get ref_server_tls asked).0 ≡ ok c.private_key

-- what LoadServerTLSConfig presents
load_server_tls_config-leaf :
    (ks : KeyStore) (v : World) (c : TlsConfig) (r : CertificateRecord)
    → latest_of_profile server_tls.name v.db.certificates ≡ some r
    → (load_server_tls_config ks v).0 ≡ ok c
    → IsPresented ks v r.pem c
unfolding load_server_tls_config
load_server_tls_config-leaf ks v c r newest h =
    let (rec, e0, h0) = bind-next _ _ v c h in
    let (inter_rec, e1, h1) = bind-next _ _ _ c h0 in
    let (root_rec, e2, h2) = bind-next _ _ _ c h1 in
    let (leaf, e3, h3) = bind-next _ _ _ c h2 in
    let (inter, e4, h4) = bind-next _ _ _ c h3 in
    let (signer, e5, h5) = bind-next _ _ _ c h4 in
    let (inter_ca, e6, h6) = bind-next _ _ _ c h5 in
    let (root_ca, e7, h7) = bind-next _ _ _ c h6 in
    let (mine, kept) = get_latest_by_profile-row server_tls.name v r rec newest e0 in
    let same_env = latest_of_kind-env root _ ∙ latest_of_kind-env intermediate _ ∙ kept in
    record {
      leaf = leaf;
      rest = inter ∷ [];
      decoded =
          subst (λ x. v.env.lib.pem_decode x.pem ≡ some leaf) mine
            (subst (λ env. env.lib.pem_decode rec.pem ≡ some leaf) same_env
              (der_from_pem-ok rec.pem leaf _ e3));
      chain = ap (λ x. x.certificate) (pure-ok _ c _ h7);
      asked = _;
      key = e5 ∙ ap (λ x. ok x.private_key) (sym (pure-ok _ c _ h7));
    }

-- Where the service issues a certificate with the profile of server TLS to any requester, not before any
-- other certificate of the ledger, a later start that loads its TLS configuration from that ledger presents
-- this certificate, with the keystore's key of the ref server-tls. Where no key of that ref is the
-- requester's, the private key is then not the one that the certificate was issued for.
pub load_server_tls_config-other :
    (deps : Deps) (profile : Profile) (subject : Name) (key : PublicKey) (dns : List String)
    (at : Time) (actor action detail : String) (ks : KeyStore) (w v : World)
    (rec : CertificateRecord) (c : TlsConfig)
    → profile.name ≡ server_tls.name
    → All (λ x. x.created_at ≤ column at) w.db.certificates
    → (issue_leaf_certificate deps profile subject key dns at actor action detail w).0 ≡ ok rec
    → v.db ≡ (issue_leaf_certificate deps profile subject key dns at actor action detail w).1.db
    → (load_server_tls_config ks v).0 ≡ ok c
    → ((u : World) (s : ℕ) → (ks.get ref_server_tls u).0 ≡ ok s → v.env.lib.public_of s ≢ key)
    → IsPresented ks v rec.pem c × (v.env.lib.public_of c.private_key ≢ key)
unfolding leaf_record
load_server_tls_config-other deps profile subject key dns at actor action detail ks w v rec c named
      newest issued same h foreign =
    let known =
      issue_leaf_certificate-ok deps profile subject key dns at actor action detail w rec issued in
    let row = Certificates.stored rec in
    let profile_of : row.profile_name ≡ server_tls.name =
      ap (λ r. r.profile_name) known.returned ∙ named in
    let when : row.created_at ≡ column at = ap (λ r. column r.created_at) known.returned in
    let latest : latest_of_profile server_tls.name v.db.certificates ≡ some row =
      ap (λ d. latest_of_profile server_tls.name d.certificates) same
      ∙ ap (latest_of_profile server_tls.name) known.row
      ∙ latest_of_profile-append server_tls.name w.db.certificates row profile_of
          (subst (λ t. All (λ x. x.created_at ≤ t) w.db.certificates) (sym when) newest) in
    let shown = load_server_tls_config-leaf ks v c row latest h in
    (shown, foreign shown.asked c.private_key shown.key)
