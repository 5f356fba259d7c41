-- ===== src/Acme/Jws.antt =====
-- internal/acme/jws.go. Every error is reported alike, so the functions return options.
use Prim.Native.String
use trust_mate.Common.{
  ℕ, zero, suc, ◌+◌, ◌-◌, ◌*◌, ◌/◌, ◌%◌, ◌^◌, String, Bool, true, false, not, Option, none, some,
  [], ◌∷◌, ◌++◌, ◌||◌, ◌&&◌, ◌==◌, nat_eq, leb, ltb, length, take, if◌then◌else◌,
}
use trust_mate.Store.Records.{Octets}
use trust_mate.Pki.Types.{PublicKey, ecdsa, rsa, unsupported}
use trust_mate.Pki.Library.{Library}
use trust_mate.Acme.Types.{Jws}

infixl 5 ◌>>=◌ ◌>>◌
abbrev ◌>>=◌ : {A B : Type 0} → Option A → (A → Option B) → Option B
none >>= f = none
some a >>= f = f a

abbrev ◌>>◌ : {B : Type 0} → Option (Unit {0}) → Option B → Option B
m >> k = m >>= λ _. k

abbrev guard : Bool → Option (Unit {0})
guard true = some tt
guard false = none

-- a decoded field, empty where the source skips an empty text
decode_payload : Library → String → Option Octets
decode_payload lib s = if s == "" then some [] else lib.base64url_decode s

unfoldable pub parse_jws : Library → Octets → Option Jws
unfolding decode_payload
parse_jws lib body = do
  fj ← lib.unmarshal_envelope body
  guard (not (fj.protected == "" || fj.signature == ""))
  header_json ← lib.base64url_decode fj.protected
  header ← lib.unmarshal_header header_json
  payload ← decode_payload lib fj.payload
  signature ← lib.base64url_decode fj.signature
  some (record {
    header = header;
    payload = payload;
    signing_input = lib.octets (String.◌++◌ fj.protected (String.◌++◌ "." fj.payload));
    signature = signature;
  })

-- new(big.Int).SetBytes
unfoldable pub set_bytes : ℕ → Octets → ℕ
set_bytes acc [] = acc
set_bytes acc (b ∷ bs) = set_bytes (acc * 256 + b) bs

abbrev drop : ℕ → Octets → Octets
drop zero bs = bs
drop (suc n) [] = []
drop (suc n) (b ∷ bs) = drop n bs

-- verifyES256: a raw r || s of 64 bytes
verify_es256 : Library → ℕ → ℕ → Octets → Octets → Bool
verify_es256 lib x y signing_input sig =
    nat_eq (length sig) 64
    && lib.ecdsa_verify x y (lib.sha256 signing_input) (set_bytes 0 (take 32 sig))
        (set_bytes 0 (drop 32 sig))

-- Verify: the algorithm of the header and the type of the key must fit
unfoldable pub verify : Library → Jws → PublicKey → Bool
unfolding verify_es256 set_bytes
verify lib j (ecdsa p256 x y) =
    j.header.alg == "ES256" && p256 && verify_es256 lib x y j.signing_input j.signature
verify lib j (rsa n e) =
    j.header.alg == "RS256" && lib.rsa_verify n e (lib.sha256 j.signing_input) j.signature
verify lib j unsupported = false

unfoldable pub octets_eq : Octets → Octets → Bool
octets_eq [] [] = true
octets_eq (a ∷ xs) (b ∷ bs) = nat_eq a b && octets_eq xs bs
octets_eq _ _ = false

unfoldable pub verify_hmac : Library → Jws → Octets → Bool
verify_hmac lib j key =
    j.header.alg == "HS256" && octets_eq (lib.hmac_sha256 key j.signing_input) j.signature

-- big.Int.Bytes(): big-endian, no leading zeros. The fuel is a bound on the number.
unfoldable pub to_bytes_from : ℕ → ℕ → Octets → Octets
to_bytes_from zero n acc = acc
to_bytes_from (suc f) n acc =
    let rest = to_bytes_from f (n / 256) ((n % 256) ∷ acc) in if nat_eq n 0 then acc else rest

unfoldable pub to_bytes : ℕ → Octets
unfolding to_bytes_from
to_bytes n = to_bytes_from n n []

unfoldable pub zeros : ℕ → Octets
zeros zero = []
zeros (suc n) = 0 ∷ zeros n

unfoldable pub left_pad : Octets → ℕ → Octets
unfolding zeros
left_pad b size = if leb size (length b) then b else zeros (size - length b) ++ b

-- big.NewInt(int64(k.E)).Bytes(): the magnitude of the signed number whose 64 bits are those of e
abbrev pub magnitude : ℕ → ℕ
magnitude e = if ltb e (2 ^ 63) then e else 2 ^ 64 - e

unfoldable pub public_key_to_jwk : Library → PublicKey → Option Octets
public_key_to_jwk lib (ecdsa p256 x y) =
    if p256
    then some (
        lib.marshal_ec (record {
          crv = "P-256";
          kty = "EC";
          x = lib.base64url_encode (left_pad (to_bytes x) 32);
          y = lib.base64url_encode (left_pad (to_bytes y) 32);
        }))
    else none
public_key_to_jwk lib (rsa n e) = some (
    lib.marshal_rsa (record {
      e = lib.base64url_encode (to_bytes (magnitude e));
      kty = "RSA";
      n = lib.base64url_encode (to_bytes n);
    }))
public_key_to_jwk lib unsupported = none

ec_public_key : Library → Octets → Option PublicKey
ec_public_key lib jwk = do
  j ← lib.unmarshal_ec jwk
  guard (j.crv == "P-256")
  x ← lib.base64url_decode j.x
  y ← lib.base64url_decode j.y
  guard (lib.is_on_curve (set_bytes 0 x) (set_bytes 0 y))
  some (ecdsa true (set_bytes 0 x) (set_bytes 0 y))

-- the exponent is the low 64 bits, the pattern of an int64
rsa_public_key : Library → Octets → Option PublicKey
rsa_public_key lib jwk = do
  j ← lib.unmarshal_rsa jwk
  n ← lib.base64url_decode j.n
  e ← lib.base64url_decode j.e
  some (rsa (set_bytes 0 n) (set_bytes 0 e % 2 ^ 64))

unfoldable pub jwk_public_key : Library → Octets → Option PublicKey
unfolding ec_public_key rsa_public_key
jwk_public_key lib jwk = do
  kty ← lib.unmarshal_kty jwk
  if kty == "EC"
      then ec_public_key lib jwk
      else if kty == "RSA"
      then rsa_public_key lib jwk
      else none

unfoldable pub thumbprint : Library → PublicKey → Option String
thumbprint lib key = do
  canonical ← public_key_to_jwk lib key
  some (lib.base64url_encode (lib.sha256 canonical))
