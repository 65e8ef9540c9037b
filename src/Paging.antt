-- ===== src/Paging.antt =====
-- The `paginate` of the two in-memory repositories (api/src/credits/credit.repository.ts and
-- api/src/retirement/retirement.repository.ts), which is also the last step of `listCredits`.
-- Page numbers and limits are integers, negative ones included.
pub mod Pages
mod Tests
use carbonchain.Prelude.{ℕ, List, length}
use carbonchain.Prelude.Int.{ℤ, pos, ◌+ℤ◌, ◌-ℤ◌, ◌*ℤ◌}
use carbonchain.Prelude.Slice.{slice}

pub record PageResult {ℓ} (A : Type ℓ) : Type ℓ where
  pub items : List A
  pub total : ℕ
  pub page : ℤ
  pub limit : ℤ

unfoldable pub paginate {ℓ} : {A : Type ℓ} → List A → ℤ → ℤ → PageResult A
unfolding ◌-ℤ◌ ◌*ℤ◌ ◌+ℤ◌ slice
paginate xs page limit =
    let offset = (page -ℤ pos 1) *ℤ limit in
    record {
      items = slice xs offset (offset +ℤ limit);
      total = length xs;
      page = page;
      limit = limit;
    }
