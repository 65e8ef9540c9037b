-- ===== src/External/Sample.antt =====
-- A concrete outside world for the examples: values of the contract are texts, an account is known by
-- its name, and the contract answers every call with one text.
use carbonchain.Prelude.{String, true, some, List, [], ◌∷◌}
use carbonchain.Prelude.Results.{ok}
use carbonchain.Shared.{active}
use carbonchain.External.{Native, text, Sdk, Stellar}

abbrev pub text_of : Native String → String
text_of (text s) = s
text_of _ = "value"

abbrev pub sample_sdk : Sdk
sample_sdk = record {
  ScVal = String;
  Keypair = String;
  Any = String;
  Bytes = String;
  native_to_sc_val = λ v ty. ok (text_of v);
  sc_val_to_native = λ v. ok v;
  field = λ name v. ok name;
  items = λ v. ok (v ∷ []);
  to_string = λ v. v;
  to_number = λ v. 0;
  to_boolean = λ v. true;
  to_status = λ v. active;
  to_hex = λ v. ok v;
  from_hex = λ s. s;
}

-- The chain is the list of the methods that were invoked.
abbrev pub sample_stellar : Stellar sample_sdk
sample_stellar = record {
  Chain = List String;
  invoke_contract = λ contract method args signer c. (ok (some "0a"), method ∷ c);
  read_contract = λ contract method args c. (ok (some "0b"), c);
}
