-- ===== src/Auth/Sample.antt =====
-- A wallet SDK for the examples: keys are characters, a transaction is the text of its signatures, and
-- the one challenge that can be built is made for `who` at the time 1000.
use Prim.Native.Char.{Char}
use Prim.Native.String.{[] as empty, ◌∷◌ as ◌:::◌}
use carbonchain.Prelude.{
  ℕ, ◌+◌, String, ◌≡◌, refl, ap, sym, ◌∙◌, Bool, true, ◌&&◌, Option, some, List, [], ◌∷◌, ◌++◌,
  arith, ◌===◌, ===_iff, ===_refl, ◌==◌, if◌then◌else◌,
}
use carbonchain.Prelude.Results.{Result, ok, err, error}
use carbonchain.Auth.Sdk.{Operation, TimeBounds, ChallengeParts, WalletSdk, WalletLaws}
use carbonchain.Auth.{AuthService, ChallengeResponse, generate_challenge}
use carbonchain.Keypair.{get_admin_keypair}

abbrev pub push : Char → String → String
push k empty = k ::: ""
push k (c ::: s) = c ::: push k s

abbrev chars : String → List Char
chars empty = []
chars (c ::: s) = c ∷ chars s

chars-push : (k : Char) (s : String) → chars (push k s) ≡ chars s ++ k ∷ []
chars-push k empty = refl
chars-push k (c ::: s) = ap (◌∷◌ c) (chars-push k s)

abbrev name_of : Char → String
name_of k = k ::: ""

abbrev first_of : String → Result Char
first_of empty = err (error "no key")
first_of (c ::: s) = ok c

abbrev fits : String → ChallengeParts → ℕ → Bool
fits who c now =
    now == 1000 && c.timeout == 300 && c.passphrase === "Test" && c.entry_source === who

abbrev pub wallets : String → WalletSdk
wallets who = record {
  Keypair = Char;
  Transaction = String;
  Hash = Unit;
  Signature = Char;
  public_passphrase = "Public";
  testnet_passphrase = "Test";
  is_valid_public_key = λ s. true;
  public_key = name_of;
  from_public_key = first_of;
  build_challenge = λ c now. if fits who c now then ok "" else err (error "not built");
  sign = push;
  to_xdr = λ tx. tx;
  parse = λ xdr passphrase. ok xdr;
  network_passphrase = λ tx. "Test";
  time_bounds = λ tx. some (record { min_time = 0; max_time = 1300 });
  operations = λ tx. record { op_type = "manageData"; source = some who } ∷ [];
  hash = λ tx. tt;
  signatures = chars;
  verify = λ k h s. ok (name_of k === name_of s);
  sign_token = λ account. account;
}

built :
    (who : String) (c : ChallengeParts) (now : ℕ) (tx : String)
    → (if fits who c now then ok "" else err (error "not built")) ≡ ok tx
    → (now ≡ 1000)
      × (c.timeout ≡ 300)
      × (c.passphrase ≡ "Test")
      × (c.entry_source ≡ who)
      × (tx ≡ "")
built who c now tx h = ground (arith, ===_iff c.passphrase "Test", ===_iff c.entry_source who)

bounds :
    (who : String) (c : ChallengeParts) (now : ℕ) (tx : String)
    → (if fits who c now then ok "" else err (error "not built")) ≡ ok tx
    → ◌≡◌ {A = Option TimeBounds}
        (some (record { min_time = 0; max_time = 1300 }))
        (some (record { min_time = 0; max_time = now + c.timeout }))
bounds who c now tx h = let (e1, e2, e3, e4, e5) = built who c now tx h in rw (e1, e2) refl

source :
    (who : String) (c : ChallengeParts) (now : ℕ) (tx : String)
    → (if fits who c now then ok "" else err (error "not built")) ≡ ok tx
    → ◌≡◌ {A = List Operation}
        (record { op_type = "manageData"; source = some who } ∷ [])
        (record { op_type = "manageData"; source = some c.entry_source } ∷ [])
source who c now tx h = let (e1, e2, e3, e4, e5) = built who c now tx h in rw e4 refl

pub wallets_laws : (who : String) → WalletLaws (wallets who)
wallets_laws who = record {
  signature = λ k h. k;
  parse-to_xdr = λ tx. refl;
  build-network_passphrase = λ c now tx h. sym (built who c now tx h).2;
  build-signatures = λ c now tx h. ap chars (built who c now tx h).4;
  build-time_bounds = λ c now tx h. bounds who c now tx h;
  build-operations = λ c now tx h. source who c now tx h;
  sign-network_passphrase = λ k tx. refl;
  sign-time_bounds = λ k tx. refl;
  sign-operations = λ k tx. refl;
  sign-hash = λ k tx. refl;
  sign-signatures = λ k tx. chars-push k tx;
  verify-signature = λ k p h e. ap ok (ap (λ n. n === name_of k) e ∙ ===_refl (name_of k));
  from_public_key-public_key = λ k. (k, (refl, refl));
}

abbrev pub service : AuthService
service = record { network_passphrase = "Test"; server_home_domain = "localhost" }

-- The server's key is `S`, the client's `C`.
abbrev pub handed_out : ChallengeResponse
handed_out = record { transaction = "S"; network_passphrase = "Test" }

-- What the API answers to the client `C` at the time 1000.
pub generate_challenge-handed_out :
    generate_challenge (wallets "C") service (some "S") "C" "nonce" 1000 ≡ ok handed_out
unfolding generate_challenge get_admin_keypair
generate_challenge-handed_out = refl
