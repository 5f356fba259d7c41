-- ===== src/Acme/Types.antt =====
-- The JSON shapes of internal/acme/jws.go and of the ACME payloads of internal/api/acme.go. A raw
-- message that is absent is empty.
use trust_mate.Common.{String, Bool, List}
use trust_mate.Store.Records.{Octets}

pub record Envelope : Type 0 where
  pub protected : String
  pub payload : String
  pub signature : String

pub record Header : Type 0 where
  pub alg : String
  pub nonce : String
  pub url : String
  pub kid : String
  pub jwk : Octets

pub record Jws : Type 0 where
  pub header : Header
  pub payload : Octets
  pub signing_input : Octets
  pub signature : Octets

pub record JwkEc : Type 0 where
  pub crv : String
  pub kty : String
  pub x : String
  pub y : String

pub record JwkRsa : Type 0 where
  pub e : String
  pub kty : String
  pub n : String

pub record NewAccountPayload : Type 0 where
  pub terms_of_service_agreed : Bool
  pub external_account_binding : Octets

pub record Identifier : Type 0 where
  pub type : String
  pub value : String

pub record NewOrderPayload : Type 0 where
  pub identifiers : List Identifier

pub record FinalizePayload : Type 0 where
  pub csr : String
