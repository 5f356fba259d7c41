-- ===== src/Lib.antt =====
-- TrustMate: a private certificate authority behind a REST and ACME API.
--
-- The program is a Go service. HTTP handlers (internal/api) check the caller's role, decode a request,
-- call the certificate code (internal/pki) and the ACME message code (internal/acme), and read and
-- write a datastore through repositories (internal/store). This library models that service as
-- functions on its state, translated from the source.
--
-- Files and what they model:
--   Store/Records: the records and sentinel errors of internal/store/store.go and the tables.
--   Store/Certificates, ClientRoles, EabTokens, Accounts, Orders, Nonces, Audit, Profiles: the
--     repositories of internal/store/sqlite, one function per method. Store/Timestamp is their text
--     columns, Store/Table the statements that they share.
--   Store/Extends, Store/Evolution: what a write leaves standing. Store/SingleUse, Claims, Replay,
--     Revoking: MarkConsumed, UpdateStatus, ConsumeIfValid and Revoke.
--   Profiles/Types: internal/profiles/profiles.go. Profiles/Registry, Config, Loading:
--     internal/profiles/registry.go (upsertVersioned, toProfile, Load), with Storing, Versions, Names,
--     Admission, Reading and Swapping for proofs about it.
--   Pki/Types, Library, Leaf, Ca: internal/pki (pki.go, leaf.go, csr.go, ca.go), with Reads,
--     Certified and Templates for proofs about it.
--   Files: the calls of package os. Keystore/Store: the KeyStore interface of
--     internal/keystore/keystore.go, with the laws that its clients use. Keystore/Files, Secrets, Refs:
--     filekeystore.go, loadSecret and ref.go, Backend their instance of the interface, with
--     Generating, Reloading and FreshRefs for proofs.
--   Revocation/Crl, Ocsp: internal/revocation/crl.go and ocsp.go. Revocation/Entries, Publishing,
--     Status, Agreement, Reading: proofs about lists, their cache, and OCSP answers.
--   Tsa/Responder, Identity: internal/tsa/responder.go and issue.go. Tsa/Times, Ledger, Reading:
--     proofs about them.
--   Config/Types, Load: internal/config/config.go and load.go, with Validation and Precedence.
--   Bootstrap/Generate, Output, Run, Loading: internal/bootstrap/bootstrap.go and server_tls.go,
--     with Growth, Once and Serving for proofs.
--   Startup/Service: cmd/trustmated/main.go, from runBootstrap to api.Deps. Startup/Lifetime: starts
--     and requests on one datastore.
--   Acme/Types, Jws: internal/acme/jws.go.
--   Api/Http, Deps, Auth, Issuing, Certificates, Clients, Profiles, Revocation, Tsa, Router:
--     internal/api (problem.go, deps.go, auth.go, certificates.go, clients.go, audit.go, ca.go,
--     profiles.go, revocation.go, tsa.go, router.go). Api/Acme: acme.go.
--   Api/Authorization, Growth, Runs, Ledger: proofs about the handlers.
--   World, Exec: the state that handlers share, and the sequencing of calls that may fail. Common:
--     tests, lists and case rules. Tests: a concrete state and the results applied to it.
--
-- A handler is a function from the world to a response or an early answer, and the world after it
-- (Exec). Go's `if err != nil { return … }` is `attempt`, a dropped error is `try`, and what was
-- written before an error stays written. One request is `serve`, and `Run` is a sequence of requests;
-- a request that runs between the statements of another is a hypothesis `Extends` on the datastore,
-- which every statement and every handler of the model satisfies.
--
-- Environment. Each SQL statement either runs whole or fails and changes nothing; which ones fail is a
-- parameter (Env.fault), and so are the clock and the random source, read at a position that every
-- reading moves on. The functions of the Go standard library that the code calls (x509, JSON, base64,
-- hashes, signatures) are the fields of Pki/Library. What a theorem assumes about them stands among its
-- hypotheses, such as the laws of the key file's encodings, or that the time of a token can be read back. `IsHealthy` says
-- that no statement fails, `IsKeyed` that primary keys and unique indices hold.
--
-- Files are a list of paths with contents. A call of package os may fail: a failed read or rename changes
-- nothing, a failed write may leave anything in its file; directories and permissions are left out.
-- Building AES-GCM from the 32 bytes that Argon2id returns does not fail. A Go map is a list in the
-- order of insertion, where the source's order of iteration is unspecified. A CRL builder, a
-- responder and a keystore are called under their locks, so each call is one step.
--
-- Bounds. Numbers are natural numbers; a time is nanoseconds since 1970, before the year 10000, and
-- a timestamp column keeps whole seconds, as RFC 3339 text does. Validities and slot numbers are not
-- negative, and the zero time of the responder is 0. Recursion is structural, and FreshRef's loop runs on
-- the number of rounds of the source, five. An RSA exponent is cut to 64 bits as
-- in the source, and read as a signed number where it is encoded.
--
-- Not modelled: the detail text and extension members of problem documents, logging, the JSON, YAML and
-- PEM encodings themselves, the PostgreSQL repositories, migrations, the Vault and PKCS#11 keystores,
-- metrics exposition, discovery documents, the HTTP server, signals and flags, and the other command-line
-- programs.
pub mod Common
pub mod Store
pub mod Profiles
pub mod Pki
pub mod Acme
pub mod Config
pub mod Keystore
pub mod Revocation
pub mod Tsa
pub mod Bootstrap
pub mod Files
pub mod World
pub mod Exec
pub mod Api
pub mod Startup
pub mod Tests
