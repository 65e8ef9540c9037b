-- ===== src/Credits/Service/Data.antt =====
-- api/src/credits/credits.service.ts: the data of the credit service, its keys, and what it is built on.
use carbonchain.Prelude.{ℕ, String, ◌+++◌, Option}
use carbonchain.Shared.{pending, CreditMetadata}
use carbonchain.External.{Sdk, Stellar}
use carbonchain.Cache.{Redis, Json, CacheService}
use carbonchain.Paging.{PageResult}
use carbonchain.Credits.Repository.{CreditEntity}
use carbonchain.Credits.Listing.{ListCreditsFilter}

pub record IssueCreditDto : Type 0 where
  pub issuer_public_key : String
  pub project_id : String
  pub vintage_year : ℕ
  pub methodology : String
  pub geography : String
  pub tonnes : String
  pub ipfs_hash : String

abbrev pub credit_key : String → String
credit_key id = "credits:" +++ id

abbrev pub list_credits_key : String → String
list_credits_key filter = "credits:list:" +++ filter

abbrev pub list_pattern : String
list_pattern = "credits:list:*"

abbrev pub credit_ttl : ℕ
credit_ttl = 120

unfoldable pub entity_to_metadata : CreditEntity → CreditMetadata
entity_to_metadata e = record {
  id = e.id;
  project_id = e.project_id;
  issuer = e.issuer;
  vintage_year = e.vintage_year;
  methodology = e.methodology;
  geography = e.geography;
  tonnes = e.tonnes;
  ipfs_hash = e.ipfs_hash;
  status = e.status;
  issued_at = e.issued_at;
}

-- The entity that `issueCredit` stores.
unfoldable pub issued_entity : IssueCreditDto → String → ℕ → CreditEntity
issued_entity dto id now = record {
  id = id;
  project_id = dto.project_id;
  issuer = dto.issuer_public_key;
  vintage_year = dto.vintage_year;
  methodology = dto.methodology;
  geography = dto.geography;
  tonnes = dto.tonnes;
  ipfs_hash = dto.ipfs_hash;
  status = pending;
  issued_at = now;
}

-- What the service is built on.
pub record Platform : Type 1 where
  pub sdk : Sdk
  pub stellar : Stellar sdk
  pub redis : Redis
  pub credit_json : Json CreditMetadata
  pub page_json : Json (PageResult CreditMetadata)
  pub filter_json : ListCreditsFilter → String
  pub to_lower_case : String → String
  pub contract_id : String
  pub admin : Option sdk.Keypair
  pub cache : CacheService
