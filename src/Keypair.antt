-- ===== src/Keypair.antt =====
-- api/src/stellar/stellar-keypair.service.ts: the admin key, loaded once from the configuration.
use carbonchain.Prelude.{String, Option, none, some, ◌||◌, ◌===◌, if◌then◌else◌, is_empty}
use carbonchain.Prelude.Results.{Result, ok, err, error, ◌>>?◌}

module _ {Keypair : Type 0} (from_secret : String → Result Keypair) where
  loaded : Result Keypair → Option Keypair
  loaded (ok k) = some k
  loaded (err e) = none

  -- The field `adminKeypair` after `onModuleInit`, by the configured ADMIN_SECRET_KEY.
  unfoldable pub on_module_init : Option String → Option Keypair
  unfolding loaded
  on_module_init none = none
  on_module_init (some secret) =
      if is_empty secret || secret === "S..." then none else loaded (from_secret secret)

unfoldable pub get_admin_keypair : {Keypair : Type 0} → Option Keypair → Result Keypair
get_admin_keypair none =
    err (error "Admin keypair is not initialized. Check ADMIN_SECRET_KEY in .env")
get_admin_keypair (some k) = ok k

pub get_admin_public_key : {Keypair : Type 0} → (Keypair → String) → Option Keypair → Result String
get_admin_public_key public_key admin = get_admin_keypair admin >>? λ k. ok (public_key k)
