-- ===== src/Keystore/Refs.antt =====
-- internal/keystore/ref.go
use Prim.Native.String
use trust_mate.Common.{ℕ, zero, suc, String, if◌then◌else◌}
use trust_mate.Store.Records.{Error, other}
use trust_mate.Exec.{Exec, ◌>>=◌, pure, raise, random_text}
use trust_mate.Keystore.Store.{KeyStore}

abbrev pub fresh_ref_attempts : ℕ
fresh_ref_attempts = 5

-- the loop, with the rounds that are left
unfoldable pub fresh_ref_loop : KeyStore → String → ℕ → Exec Error String
fresh_ref_loop ks prefix zero = raise other
fresh_ref_loop ks prefix (suc left) =
    let again = fresh_ref_loop ks prefix left in
    do
      suffix ← random_text 4
      let ref : String = String.◌++◌ prefix (String.◌++◌ "-" suffix)
      found ← ks.exists ref
      if found then again else pure ref

unfoldable pub fresh_ref : KeyStore → String → Exec Error String
fresh_ref ks prefix = fresh_ref_loop ks prefix fresh_ref_attempts
