-- ===== src/Auth/Sdk.antt =====
-- What api/src/auth/auth.service.ts takes from @stellar/stellar-sdk and @nestjs/jwt, and what it relies
-- on.
use carbonchain.Prelude.{ℕ, ◌+◌, String, ◌≡◌, Bool, true, Option, some, List, [], ◌∷◌, ◌++◌}
use carbonchain.Prelude.Results.{Result, ok}

pub record Operation : Type 0 where
  pub op_type : String
  pub source : Option String

pub record TimeBounds : Type 0 where
  pub min_time : ℕ
  pub max_time : ℕ

-- What `generateChallenge` gives to the transaction builder.
pub record ChallengeParts : Type 0 where
  pub source_account : String
  pub sequence : String
  pub fee : String
  pub passphrase : String
  pub entry_name : String
  pub entry_value : String
  pub entry_source : String
  pub timeout : ℕ

pub record WalletSdk : Type 1 where
  pub Keypair : Type 0
  pub Transaction : Type 0
  pub Hash : Type 0
  pub Signature : Type 0
  pub public_passphrase : String
  pub testnet_passphrase : String
  pub is_valid_public_key : String → Bool
  pub public_key : Keypair → String
  pub from_public_key : String → Result Keypair
  pub build_challenge : ChallengeParts → ℕ → Result Transaction
  pub sign : Keypair → Transaction → Transaction
  pub to_xdr : Transaction → String
  pub parse : String → String → Result Transaction
  pub network_passphrase : Transaction → String
  pub time_bounds : Transaction → Option TimeBounds
  pub operations : Transaction → List Operation
  pub hash : Transaction → Hash
  pub signatures : Transaction → List Signature
  pub verify : Keypair → Hash → Signature → Result Bool
  pub sign_token : String → String

-- The documented behaviour of transactions: a built challenge has the bounds and the one operation it
-- was built with; a signature that a key adds is verified by that key and by the public half of it, and
-- stays when others sign; a transaction survives its XDR under its own
-- network passphrase.
pub record WalletLaws (w : WalletSdk) : Type 0 where
  pub signature : w.Keypair → w.Hash → w.Signature
  pub parse-to_xdr : (tx : w.Transaction) → w.parse (w.to_xdr tx) (w.network_passphrase tx) ≡ ok tx
  pub build-network_passphrase :
      (c : ChallengeParts) (now : ℕ) (tx : w.Transaction)
      → w.build_challenge c now ≡ ok tx
      → w.network_passphrase tx ≡ c.passphrase
  pub build-signatures :
      (c : ChallengeParts) (now : ℕ) (tx : w.Transaction)
      → w.build_challenge c now ≡ ok tx
      → w.signatures tx ≡ []
  pub build-time_bounds :
      (c : ChallengeParts) (now : ℕ) (tx : w.Transaction)
      → w.build_challenge c now ≡ ok tx
      → w.time_bounds tx ≡ some (record { min_time = 0; max_time = now + c.timeout })
  pub build-operations :
      (c : ChallengeParts) (now : ℕ) (tx : w.Transaction)
      → w.build_challenge c now ≡ ok tx
      → w.operations tx ≡ record { op_type = "manageData"; source = some c.entry_source } ∷ []
  pub sign-network_passphrase :
      (k : w.Keypair) (tx : w.Transaction)
      → w.network_passphrase (w.sign k tx) ≡ w.network_passphrase tx
  pub sign-time_bounds :
      (k : w.Keypair) (tx : w.Transaction) → w.time_bounds (w.sign k tx) ≡ w.time_bounds tx
  pub sign-operations :
      (k : w.Keypair) (tx : w.Transaction) → w.operations (w.sign k tx) ≡ w.operations tx
  pub sign-hash : (k : w.Keypair) (tx : w.Transaction) → w.hash (w.sign k tx) ≡ w.hash tx
  pub sign-signatures :
      (k : w.Keypair) (tx : w.Transaction)
      → w.signatures (w.sign k tx) ≡ w.signatures tx ++ signature k (w.hash tx) ∷ []
  pub verify-signature :
      (k p : w.Keypair) (h : w.Hash)
      → w.public_key p ≡ w.public_key k
      → w.verify p h (signature k h) ≡ ok true
  pub from_public_key-public_key :
      (k : w.Keypair)
      → (p : w.Keypair) × ((w.from_public_key (w.public_key k) ≡ ok p)
          × (w.public_key p ≡ w.public_key k))
