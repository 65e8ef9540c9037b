-- ===== src/Credits/Controller.antt =====
-- api/src/credits/credits.controller.ts: what `GET /credits` makes of the texts of its query. A page or a
-- limit that parseInt does not read is `NaN` and has no filter here.
pub mod Query
mod Tests
use mathlib.Core.Option
use carbonchain.Prelude.{String, Option, none, some, is_empty, if◌then◌else◌}
use carbonchain.Prelude.Int.{ℤ}
use carbonchain.Prelude.Decimal.ParseInt.{parse_int}
use carbonchain.Prelude.Results.{Io}
use carbonchain.Paging.{PageResult}
use carbonchain.Shared.{CreditMetadata}
use carbonchain.Credits.Listing.{ListCreditsFilter, given}
use carbonchain.Credits.Service.{Platform, State, list_credits}

pub record ListQuery : Type 0 where
  pub methodology : Option String
  pub geography : Option String
  pub vintage_year : Option String
  pub status : Option String
  pub min_tonnes : Option String
  pub max_tonnes : Option String
  pub page : Option String
  pub limit : Option String

abbrev pub or_default : Option String → String → String
or_default none d = d
or_default (some s) d = s

-- `vintageYear ? parseInt(vintageYear, 10) : undefined`; as a filter `NaN` is like `undefined`.
abbrev pub year_of : Option String → Option ℤ
year_of none = none
year_of (some s) = if is_empty s then none else parse_int s

abbrev pub with_page : ListQuery → ℤ → ℤ → ListCreditsFilter
with_page q page limit = record {
  methodology = q.methodology;
  geography = q.geography;
  vintage_year = year_of q.vintage_year;
  status = q.status;
  min_tonnes = q.min_tonnes;
  max_tonnes = q.max_tonnes;
  page = page;
  limit = limit;
}

abbrev filter_of : ListQuery → Option ℤ → Option ℤ → Option ListCreditsFilter
filter_of q (some page) (some limit) = some (with_page q page limit)
filter_of q _ _ = none

unfoldable pub list_filter : ListQuery → Option ListCreditsFilter
list_filter q =
    filter_of q (parse_int (or_default q.page "1")) (parse_int (or_default q.limit "10"))

unfoldable pub get_credits :
    (p : Platform) → ListQuery → Option (Io (State p) (PageResult CreditMetadata))
get_credits p q = Option.map (list_credits p) (list_filter q)
