-- ===== src/External.antt =====
-- What the services take from outside the repository: the conversions of @stellar/stellar-sdk, the
-- values of unknown type that they return, Node's `Buffer`, and the contract calls of
-- api/src/stellar/stellar.service.ts as the other services see them.
pub mod Sample
use carbonchain.Prelude.{ℕ, String, Bool, Option, none, some, List}
use carbonchain.Prelude.Int.{ℤ}
use carbonchain.Prelude.Results.{Result, ok, err, error}
use carbonchain.Shared.{CreditStatus}

-- The arguments that the program gives to `nativeToScVal`.
pub data Native (Bytes : Type 0) : Type 0 where
  text : String → Native Bytes
  number : ℕ → Native Bytes
  integer : ℤ → Native Bytes
  bytes : Bytes → Native Bytes
  boolean : Bool → Native Bytes

-- `Any` is the type of what `scValToNative` returns; reading a property, an array or bytes from it
-- throws where the value has another shape.
pub record Sdk : Type 1 where
  pub ScVal : Type 0
  pub Keypair : Type 0
  pub Any : Type 0
  pub Bytes : Type 0
  pub native_to_sc_val : Native Bytes → String → Result ScVal
  pub sc_val_to_native : ScVal → Result Any
  pub field : String → Any → Result Any
  pub items : Any → Result (List Any)
  pub to_string : Any → String
  pub to_number : Any → ℕ
  pub to_boolean : Any → Bool
  pub to_status : Any → CreditStatus
  pub to_hex : Any → Result String
  pub from_hex : String → Bytes

-- `invokeContract` answers with the `returnValue` of the transaction, `readContract` with the result
-- of the simulation.
pub record Stellar (sdk : Sdk) : Type 1 where
  pub Chain : Type 0
  pub invoke_contract :
      String → String → List sdk.ScVal → sdk.Keypair → Chain → Result (Option sdk.ScVal) × Chain
  pub read_contract : String → String → List sdk.ScVal → Chain → Result (Option sdk.ScVal) × Chain
