-- ===== src/Credits/Repository.antt =====
-- api/src/credits/credit.repository.ts and credit.entity.ts: the in-memory index of credits.
use carbonchain.Prelude.{ℕ, String, Option, ◌===◌, filter}
use carbonchain.Prelude.Int.{ℤ}
use carbonchain.Prelude.JsMap.{JsMap, get, set, values}
use carbonchain.Shared.{CreditStatus, status_text}
use carbonchain.Paging.{PageResult, paginate}

pub record CreditEntity : Type 0 where
  pub id : String
  pub project_id : String
  pub issuer : String
  pub vintage_year : ℕ
  pub methodology : String
  pub geography : String
  pub tonnes : String
  pub ipfs_hash : String
  pub status : CreditStatus
  pub issued_at : ℕ

abbrev pub CreditStore : Type 0
CreditStore = JsMap CreditEntity

unfoldable pub save : CreditEntity → CreditStore → CreditStore
save credit store = set credit.id credit store

unfoldable pub find_by_id : String → CreditStore → Option CreditEntity
find_by_id id store = get id store

unfoldable pub find_by_project : String → ℤ → ℤ → CreditStore → PageResult CreditEntity
find_by_project project_id page limit store =
    paginate (filter (λ c. c.project_id === project_id) (values store)) page limit

unfoldable pub find_all : ℤ → ℤ → CreditStore → PageResult CreditEntity
find_all page limit store = paginate (values store) page limit

unfoldable pub find_by_status : CreditStatus → ℤ → ℤ → CreditStore → PageResult CreditEntity
find_by_status status page limit store =
    paginate (filter (λ c. status_text c.status === status_text status) (values store)) page limit
