-- ===== src/Oracle.antt =====
-- api/src/oracle/oracle.service.ts: measurements of the oracles, signed with a shared secret. Node's
-- `crypto` and `Buffer` are parameters; the current time in seconds is an argument.
pub mod Signatures
mod Tests
pub mod Sample
use carbonchain.Prelude.{
  ℕ, String, ◌+++◌, Bool, false, not, ◌||◌, Option, none, some, List, [], ◌∷◌, ◌==◌, ◌≡◌, ◌↔◌, true,
  if◌then◌else◌,
}
use carbonchain.Prelude.Int.{pos}
use carbonchain.Prelude.Results.{Result, ok, err, unauthorized, Io, ◌>>=◌, ◌>>◌, lift, ◌>>?◌}
use carbonchain.External.{Native, text, integer, Sdk, Stellar}
use carbonchain.Keypair.{get_admin_keypair}
use carbonchain.Credits.Listing.{parse_big_int}

pub record MrvWebhookDto : Type 0 where
  pub oracle_public_key : String
  pub project_id : String
  pub tonnes_sequestered : String
  pub signature : String

-- `hmac_sha256_hex secret text` is the digest of `createHmac('sha256', secret)` in hex.
pub record Crypto : Type 1 where
  pub Buffer : Type 0
  pub hmac_sha256_hex : String → String → String
  pub from_hex : String → Buffer
  pub byte_length : Buffer → ℕ
  pub timing_safe_equal : Buffer → Buffer → Bool

-- The documented behaviour of `timingSafeEqual` on buffers of one length.
pub record CryptoLaws (c : Crypto) : Type 0 where
  pub timing_safe_equal_iff :
      (a b : c.Buffer)
      → c.byte_length a ≡ c.byte_length b
      → (c.timing_safe_equal a b ≡ true) ↔ (a ≡ b)

pub record OracleService : Type 0 where
  pub contract_id : String
  pub webhook_secret : String

abbrev pub or_default : Option String → String → String
or_default none d = d
or_default (some s) d = s

-- The constructor, by the configured MRV_ORACLE_CONTRACT_ID and ORACLE_WEBHOOK_SECRET.
pub new_oracle_service : Option String → Option String → OracleService
new_oracle_service contract_id secret = record {
  contract_id = or_default contract_id "";
  webhook_secret = or_default secret "changeme";
}

pub record Anomaly : Type 0 where
  pub anomaly : Bool

module _ (crypto : Crypto) (sdk : Sdk) (stellar : Stellar sdk) (admin : Option sdk.Keypair) where
  -- The two buffers that `validateSignature` compares.
  abbrev pub expected : OracleService → MrvWebhookDto → crypto.Buffer
  expected o dto = crypto.from_hex (
      crypto.hmac_sha256_hex o.webhook_secret (dto.project_id +++ (":" +++ dto.tonnes_sequestered)))

  abbrev pub actual : MrvWebhookDto → crypto.Buffer
  actual dto = crypto.from_hex dto.signature

  pub validate_signature : OracleService → MrvWebhookDto → Result (Unit {0})
  validate_signature o dto =
      let e = expected o dto in
      let a = actual dto in
      if not (crypto.byte_length e == crypto.byte_length a) || not (crypto.timing_safe_equal e a)
      then err (unauthorized "Invalid oracle signature")
      else ok tt

  pub mrv_args : MrvWebhookDto → ℕ → Result (List sdk.ScVal)
  mrv_args dto now = sdk.native_to_sc_val (text dto.oracle_public_key) "address" >>? λ a1.
      sdk.native_to_sc_val (text dto.project_id) "string" >>? λ a2.
      parse_big_int dto.tonnes_sequestered >>? λ t.
      sdk.native_to_sc_val (integer t) "i128" >>? λ a3.
      sdk.native_to_sc_val (integer (pos now)) "u64" >>? λ a4. ok (a1 ∷ a2 ∷ a3 ∷ a4 ∷ [])

  abbrev pub anomaly_of : Option sdk.ScVal → Result Anomaly
  anomaly_of none = ok (record { anomaly = false })
  anomaly_of (some rv) = sdk.sc_val_to_native rv >>? λ n. ok (record { anomaly = sdk.to_boolean n })

  -- `ingestMrvData` after the signature was validated.
  pub update_mrv_data : OracleService → MrvWebhookDto → ℕ → Io stellar.Chain Anomaly
  unfolding mrv_args
  update_mrv_data o dto now = do
    args ← lift (mrv_args dto now)
    signer ← lift (get_admin_keypair admin)
    rv ← stellar.invoke_contract o.contract_id "update_mrv_data" args signer
    lift (anomaly_of rv)

  pub ingest_mrv_data : OracleService → MrvWebhookDto → ℕ → Io stellar.Chain Anomaly
  unfolding validate_signature update_mrv_data
  ingest_mrv_data o dto now = do _ ← lift (validate_signature o dto); update_mrv_data o dto now
