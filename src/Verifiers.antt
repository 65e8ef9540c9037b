-- ===== src/Verifiers.antt =====
-- api/src/verifiers/verifiers.service.ts: the verifiers and their credits, read from the contract. The
-- `catch` of each read logs the error and answers with an empty list. A field of a declared type is read
-- by the conversion to that type.
pub mod Lookup
mod Tests
use carbonchain.Prelude.{String, ◌+++◌, Option, none, some, List, [], ◌∷◌, map, find, ◌===◌}
use carbonchain.Prelude.Results.{
  Result, ok, err, not_found, Io, ◌>>=◌, pure, lift, catch, ◌>>?◌, or_throw,
}
use carbonchain.Shared.{CreditMetadata}
use carbonchain.External.{Native, text, Sdk, Stellar}

pub record VerifierInfo : Type 0 where
  pub address : String

module _ (sdk : Sdk) (stellar : Stellar sdk) (contract_id : String) where
  abbrev pub infos_of : Option sdk.ScVal → Result (List VerifierInfo)
  infos_of none = ok []
  infos_of (some v) = sdk.sc_val_to_native v >>? λ n.
      sdk.items n >>? λ addresses. ok (map (λ a. record { address = sdk.to_string a }) addresses)

  -- The body of the `try` of `listVerifiers`.
  abbrev pub read_verifiers : Io stellar.Chain (List VerifierInfo)
  read_verifiers = do
    retval ← stellar.read_contract contract_id "list_verifiers" []
    lift (infos_of retval)

  unfoldable pub list_verifiers : Io stellar.Chain (List VerifierInfo)
  list_verifiers = catch read_verifiers λ e. pure []

  unfoldable pub get_verifier : String → Io stellar.Chain VerifierInfo
  unfolding list_verifiers
  get_verifier address = do
    verifiers ← list_verifiers
    lift (
        or_throw (find (λ v. v.address === address) verifiers)
          (not_found ("Verifier " +++ (address +++ " not found"))))

  -- The object that both `map`s build from a credit of the contract.
  pub credit_of : sdk.Any → Result CreditMetadata
  credit_of n = sdk.field "id" n >>? λ id. sdk.to_hex id >>? λ hex.
      sdk.field "project_id" n >>? λ project_id. sdk.field "issuer" n >>? λ issuer.
      sdk.field "vintage_year" n >>? λ vintage_year. sdk.field "methodology" n >>? λ methodology.
      sdk.field "geography" n >>? λ geography. sdk.field "tonnes" n >>? λ tonnes.
      sdk.field "ipfs_hash" n >>? λ ipfs_hash. sdk.field "status" n >>? λ status.
      sdk.field "issued_at" n >>? λ issued_at. ok (record {
        id = hex;
        project_id = sdk.to_string project_id;
        issuer = sdk.to_string issuer;
        vintage_year = sdk.to_number vintage_year;
        methodology = sdk.to_string methodology;
        geography = sdk.to_string geography;
        tonnes = sdk.to_string tonnes;
        ipfs_hash = sdk.to_string ipfs_hash;
        status = sdk.to_status status;
        issued_at = sdk.to_number issued_at;
      })

  pub credits_of : List sdk.Any → Result (List CreditMetadata)
  unfolding credit_of
  credits_of [] = ok []
  credits_of (n ∷ ns) = credit_of n >>? λ c. credits_of ns >>? λ cs. ok (c ∷ cs)

  abbrev pub read_credits : String → String → Io stellar.Chain (List CreditMetadata)
  read_credits method verifier_id = do
    arg ← lift (sdk.native_to_sc_val (text verifier_id) "address")
    retval ← stellar.read_contract contract_id method (arg ∷ [])
    elim retval [
      | none ↦ pure []
      | some v ↦ lift (sdk.sc_val_to_native v >>? λ n. sdk.items n >>? credits_of)
    ]

  pub get_pending_credits : String → Io stellar.Chain (List CreditMetadata)
  get_pending_credits verifier_id =
      catch (read_credits "get_pending_credits" verifier_id) λ e. pure []

  pub get_approval_history : String → Io stellar.Chain (List CreditMetadata)
  get_approval_history verifier_id =
      catch (read_credits "get_approval_history" verifier_id) λ e. pure []
