-- ===== src/Frontend/Dashboard.antt =====
-- frontend/src/app/dashboard/dashboard.component.ts: the credits of the store and the retirements. The
-- code after an `await` is a function of its own; the answers of the API are a parameter.
pub mod Visits
mod Tests
use carbonchain.Prelude.{
  String, Bool, true, false, Option, none, some, List, [], ◌∷◌, map, ◌===◌, if◌then◌else◌,
}
use carbonchain.Shared.{CreditMetadata, RetirementRecord}
use carbonchain.Frontend.{Outcome, fulfilled, rejected, message_of, promise_all}
use carbonchain.Frontend.Store.{
  CreditStore, begin_load, end_load_by_project, retired_credits, select,
}

pub record Dashboard : Type 0 where
  pub store : CreditStore
  pub retirements : List RetirementRecord
  pub retirements_loading : Bool
  pub retirements_error : Option String

-- A new page with the store of credits, which outlives the pages.
abbrev pub new_dashboard : CreditStore → Dashboard
new_dashboard store = record {
  store = store;
  retirements = [];
  retirements_loading = false;
  retirements_error = none;
}

-- What the API answers; a retirement may be `null`.
pub record DashboardAnswers : Type 0 where
  pub list_credits_by_project : String → Outcome (List String)
  pub get_credit : String → Outcome CreditMetadata
  pub get_retirement : String → Outcome (Option RetirementRecord)

-- `loadRetirements` up to its await, with the ids that it asks for.
unfoldable pub begin_load_retirements : Dashboard → Dashboard × List String
begin_load_retirements d = (
  record d { retirements_loading = true; retirements_error = none },
  map (λ c. c.id) (retired_credits d.store),
)

-- `records.filter(Boolean)`
unfoldable pub present : List (Option RetirementRecord) → List RetirementRecord
present [] = []
present (none ∷ rs) = present rs
present (some r ∷ rs) = r ∷ present rs

unfoldable pub end_load_retirements :
    Outcome (List (Option RetirementRecord)) → Dashboard → Dashboard
end_load_retirements (fulfilled rs) d = record d {
  retirements = present rs;
  retirements_loading = false;
}
end_load_retirements (rejected e) d = record d {
  retirements_error = some (message_of "Failed to load retirements." e);
  retirements_loading = false;
}

unfoldable pub answered_retirements : DashboardAnswers → List String → Dashboard → Dashboard
answered_retirements a ids d = end_load_retirements (promise_all (map a.get_retirement ids)) d

-- `loadByProject` of the store before and after its awaits.
abbrev pub begin_credits : Dashboard → Dashboard
begin_credits d = record d { store = begin_load d.store }

unfoldable pub answered_credits : DashboardAnswers → String → Dashboard → Dashboard
answered_credits a key d = record d {
  store = end_load_by_project (a.list_credits_by_project key) a.get_credit d.store;
}

-- Both loads begin before an answer is there; with them come the ids of the retirements asked for.
unfoldable pub on_init : Option String → Dashboard → Dashboard × List String
on_init none d = (d, [])
on_init (some key) d = begin_load_retirements (begin_credits d)

-- The second load begins after the first has ended; no other call comes in between.
unfoldable pub connect_wallet : DashboardAnswers → Outcome String → Dashboard → Dashboard
connect_wallet a (rejected e) d = d
connect_wallet a (fulfilled key) d =
    let (begun, ids) = begin_load_retirements (answered_credits a key (begin_credits d)) in
    answered_retirements a ids begun

abbrev is_selected : String → Option String → Bool
is_selected id none = false
is_selected id (some s) = s === id

pub select_credit : String → Dashboard → Dashboard
select_credit id d = record d {
  store = select (if is_selected id d.store.selected_id then none else some id) d.store;
}
