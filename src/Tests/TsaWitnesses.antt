-- ===== src/Tests/TsaWitnesses.antt =====
-- The theorems on the time-stamp authority: two tokens with a rotation between them, and the rotation route.
use trust_mate.Common.{
  ◌+◌, ◌*◌, ◌/◌, ◌≡◌, refl, List, [], ◌∷◌, if_absent, if◌then◌else◌, nat_eq, ◌==◌, Option, none,
  some, Bool-cases, inl, inr, arith,
}
use mathlib.Core.Path.{subst}
use trust_mate.Store.Records.{Time, Bytes}
use trust_mate.Store.Records
use trust_mate.Store.Certificates
use trust_mate.Store.Audit
use trust_mate.Store.Table.{first_where}
use trust_mate.World.{World}
use trust_mate.Pki.Library.{Library}
use trust_mate.Revocation.Crl.{second}
use trust_mate.Exec.{ok, ◌>>=◌, attempt, statement, modify, now, random_text, random_bytes}
use trust_mate.Tsa.Responder.{next_gen_time, rotate, snapshot, stamp, token, respond}
use trust_mate.Tsa.Responder.{current_issuer}
use trust_mate.Tsa.Identity.{issue_identity, identity_profile, identity_record}
use trust_mate.Keystore.Refs.{fresh_ref, fresh_ref_loop}
use trust_mate.Profiles.Types.{with_issuer_urls}
use trust_mate.Pki.Leaf.{
  issue_leaf, leaf_template, leaf_request, build_template, generate_serial, subject_key_id, oids_of,
  ext_key_usage_oid,
}
use trust_mate.Api.Deps.{count}
use trust_mate.Tsa.Times.{
  IsIncreasing, IsToken, ReadsTime, Life, stamped, rotated, done, respond-IsToken,
  Life-IsIncreasing,
}
use trust_mate.Api.Http.{Response, json, tsa_rotated}
use trust_mate.Api.Tsa.{handle_rotate_tsa, switch_identity, rotation}
use trust_mate.Api.Ledger.Rotation.{IsRotated, handle_rotate_tsa-IsRotated}
use trust_mate.Tests.Fixtures.{certificate, deps, issuer, library, start, world}

stamped_one : (respond certificate [] world).0 ≡ ok "token"
unfolding respond ◌>>=◌ attempt stamp snapshot now modify next_gen_time
stamped_one = refl

abbrev once : World
once = (respond certificate [] world).1

respond-IsToken_example : IsToken certificate [] world once "token"
respond-IsToken_example = respond-IsToken certificate [] world "token" stamped_one

-- a library whose tokens tell the times of two moments, and the reader of such tokens
abbrev first_time : Time
first_time = start / second * second

abbrev telling : Library
telling = record library {
  create_timestamp_response = λ t i.
      if nat_eq t.time first_time
      then some "first"
      else if nat_eq t.time (first_time + second)
      then some "second"
      else none;
}

abbrev read_time : Bytes → Option Time
read_time der =
    if der == "first"
    then some first_time
    else if der == "second"
    then some (first_time + second)
    else none

telling-ReadsTime : ReadsTime read_time telling
telling-ReadsTime t i der whole h = elim (Bool-cases (nat_eq t.time first_time)) [
  | inl e ↦
      (let same : "first" ≡ der = ground (arith, h, e) in
        subst (λ x. read_time x ≡ some t.time) same (ground (arith, e)))
  | inr e ↦ (elim (Bool-cases (nat_eq t.time (first_time + second))) [
    | inl f ↦
        (let same : "second" ≡ der = ground (arith, h, e, f) in
          subst (λ x. read_time x ≡ some t.time) same (ground (arith, f)))
    | inr f ↦ absurd (ground (arith, h, e, f))
  ])
]

abbrev told : World
told = record world { env = record world.env { lib = telling } }

told_one : (respond certificate [] told).0 ≡ ok "first"
unfolding respond ◌>>=◌ attempt stamp snapshot now modify next_gen_time token
told_one = refl

abbrev turned : World
turned = (rotate {E = Records.Error} issuer (respond certificate [] told).1).1

told_two : (respond certificate [] turned).0 ≡ ok "second"
unfolding respond ◌>>=◌ attempt stamp snapshot now modify next_gen_time rotate token
told_two = refl

abbrev twice : World
twice = (respond certificate [] turned).1

abbrev times : List Time
times = first_time ∷ (first_time + second) ∷ []

life : Life certificate telling read_time told times twice
unfolding respond ◌>>=◌ attempt stamp snapshot now modify next_gen_time rotate token
life = stamped [] "first" first_time told twice ((first_time + second) ∷ []) refl told_one refl (
    rotated issuer (respond certificate [] told).1 twice ((first_time + second) ∷ [])
      (stamped [] "second" (first_time + second) turned twice [] refl told_two refl (done twice)))

Life-IsIncreasing_example : IsIncreasing 0 times
Life-IsIncreasing_example =
    Life-IsIncreasing certificate telling read_time told twice times telling-ReadsTime (0, refl)
      life

abbrev resp : Response
resp = json 200 (tsa_rotated "42" "" "tsa" start (start + 1000000000) "pem")

rotated_one : (handle_rotate_tsa deps "actor" world).0 ≡ ok resp
unfolding handle_rotate_tsa current_issuer attempt ◌>>=◌ fresh_ref fresh_ref_loop random_text
    issue_identity identity_profile identity_record now issue_leaf leaf_template build_template
    generate_serial subject_key_id random_bytes statement Certificates.create Certificates.insert
    if_absent first_where with_issuer_urls leaf_request oids_of ext_key_usage_oid switch_identity
    rotate modify Audit.append Audit.insert count rotation
rotated_one = refl

handle_rotate_tsa-IsRotated_example :
    IsRotated deps "actor" world (handle_rotate_tsa deps "actor" world).1 resp
handle_rotate_tsa-IsRotated_example =
    handle_rotate_tsa-IsRotated deps "actor" world resp rotated_one
