-- ===== src/Oracle/Sample.antt =====
-- A crypto library and a measurement that the tests use: a digest is the secret and the text.
use carbonchain.Prelude.{String, ◌+++◌, ◌===◌, ===_iff}
use carbonchain.Oracle.{MrvWebhookDto, Crypto, CryptoLaws, OracleService}

abbrev pub crypto : Crypto
crypto = record {
  Buffer = String;
  hmac_sha256_hex = λ secret t. secret +++ t;
  from_hex = λ s. s;
  byte_length = λ b. 32;
  timing_safe_equal = λ a b. a === b;
}

abbrev pub crypto_laws : CryptoLaws crypto
crypto_laws = record { timing_safe_equal_iff = λ a b h. ===_iff a b }

abbrev pub oracle_service : OracleService
oracle_service = record { contract_id = "MRV"; webhook_secret = "s" }

abbrev pub measured : MrvWebhookDto
measured = record {
  oracle_public_key = "GORACLE";
  project_id = "p";
  tonnes_sequestered = "7";
  signature = "sp:7";
}
