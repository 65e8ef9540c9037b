-- ===== src/Frontend/Store.antt =====
-- frontend/src/app/core/store/credit.store.ts. The code after an `await` runs when the answer is there:
-- it is a function of its own, applied to the outcome, and other calls may come in between.
pub mod Loads
pub mod Merging
pub mod Groups
pub mod Offers
pub mod Backed
mod Tests
use carbonchain.Prelude.{
  ℕ, ◌+◌, String, ◌+++◌, Bool, true, false, Option, none, some, List, [], ◌∷◌, ◌++◌, ◌===◌, take,
  drop, find, filter, map,
}
use carbonchain.Prelude.Int.{ℤ, pos, ◌+ℤ◌}
use carbonchain.Prelude.JsMap.{JsMap, get, set}
use carbonchain.Prelude.Results.{Result, ok, err, ◌>>?◌}
use carbonchain.Shared.{CreditMetadata, status_text}
use carbonchain.Credits.Listing.{parse_big_int}
use carbonchain.Frontend.{
  Outcome, fulfilled, rejected, message_of, LoadingState, idle, loading, loaded, error, put,
  promise_all,
}

-- The signals of the store.
pub record CreditStore : Type 0 where
  pub credits : List CreditMetadata
  pub loading_state : LoadingState
  pub error_message : Option String
  pub selected_id : Option String

abbrev pub empty_store : CreditStore
empty_store = record {
  credits = [];
  loading_state = idle;
  error_message = none;
  selected_id = none;
}

abbrev pub loading_of : LoadingState → Bool
loading_of loading = true
loading_of _ = false

pub is_loading : CreditStore → Bool
is_loading s = loading_of s.loading_state

-- `c.id === selectedId`, which no text is when nothing is selected.
abbrev has_id : Option String → CreditMetadata → Bool
has_id none c = false
has_id (some id) c = c.id === id

pub selected : CreditStore → Option CreditMetadata
selected s = find (has_id s.selected_id) s.credits

pub sum_tonnes : List CreditMetadata → ℤ → Result ℤ
sum_tonnes [] sum = ok sum
sum_tonnes (c ∷ cs) sum = parse_big_int c.tonnes >>? λ t. sum_tonnes cs (sum +ℤ t)

pub total_tonnes : CreditStore → Result ℤ
total_tonnes s = sum_tonnes s.credits (pos 0)

pub active_credits : CreditStore → List CreditMetadata
active_credits s = filter (λ c. status_text c.status === "Active") s.credits

unfoldable pub retired_credits : CreditStore → List CreditMetadata
retired_credits s = filter (λ c. status_text c.status === "Retired") s.credits

abbrev pub or_empty_list : Option (List CreditMetadata) → List CreditMetadata
or_empty_list none = []
or_empty_list (some list) = list

-- The loop of `creditsByProject` on the map built so far.
pub group : List CreditMetadata → JsMap (List CreditMetadata) → JsMap (List CreditMetadata)
group [] m = m
group (c ∷ cs) m = group cs (set c.project_id (or_empty_list (get c.project_id m) ++ c ∷ []) m)

pub credits_by_project : CreditStore → JsMap (List CreditMetadata)
unfolding group
credits_by_project s = group s.credits []

-- What both loads do before their first `await`.
unfoldable pub begin_load : CreditStore → CreditStore
begin_load s = record s { loading_state = loading; error_message = none }

-- `loadByProject` after its awaits: the outcome for the ids, and the answers to the requests for each.
unfoldable pub end_load_by_project :
    Outcome (List String) → (String → Outcome CreditMetadata) → CreditStore → CreditStore
end_load_by_project (fulfilled ids) answer s = elim (promise_all (map answer ids)) [
  | fulfilled credits ↦ record s { credits = credits; loading_state = loaded }
  | rejected e ↦ record s {
    error_message = some (message_of "Failed to load credits." e);
    loading_state = error;
  }
]
end_load_by_project (rejected e) answer s = record s {
  error_message = some (message_of "Failed to load credits." e);
  loading_state = error;
}

-- The function that `loadOne` gives to `update`.
pub merge : String → CreditMetadata → List CreditMetadata → List CreditMetadata
merge id credit list = put (λ c. c.id) id credit list

-- `loadOne` after its await.
pub end_load_one : String → Outcome CreditMetadata → CreditStore → CreditStore
unfolding merge
end_load_one id (fulfilled credit) s = record s {
  credits = merge id credit s.credits;
  loading_state = loaded;
}
end_load_one id (rejected e) s = record s {
  error_message = some (message_of ("Failed to load credit " +++ (id +++ ".")) e);
  loading_state = error;
}

unfoldable pub select : Option String → CreditStore → CreditStore
select id s = record s { selected_id = id }

pub reset : CreditStore → CreditStore
reset s = record s { credits = []; loading_state = idle; error_message = none; selected_id = none }
