-- ===== src/Settings.antt =====
-- The settings that api/src/app.module.ts admits, against the services that read them.
pub mod Network
mod Tests
use carbonchain.Prelude.{String, List, [], ◌∷◌}

-- The values that the schema admits for STELLAR_NETWORK.
abbrev pub valid_networks : List String
valid_networks = "testnet" ∷ "mainnet" ∷ []
