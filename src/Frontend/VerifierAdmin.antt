-- ===== src/Frontend/VerifierAdmin.antt =====
-- frontend/src/app/admin/admin-verifiers.component.ts: the page on which an admin registers, configures
-- and suspends verifiers. The answers of the API are arguments; the toasts are those of the browser.
pub mod Selection
mod Tests
use carbonchain.Prelude.{
  String, Bool, true, false, not, Option, none, some, List, [], ◌∷◌, ◌++◌, ◌===◌, any, filter,
  is_empty, if◌then◌else◌,
}
use carbonchain.Prelude.Text.{trim}
use carbonchain.Verifiers.{VerifierInfo}
use carbonchain.Admin.{AdminStats, Registered, Suspended, Configured}
use carbonchain.Routes.Requests.{VerifierConfig}
use carbonchain.Frontend.{Outcome, fulfilled, rejected, Rejection, message_of}
use carbonchain.Frontend.Toasts.{Browser, ToastType, error, success, show}

pub record Page : Type 0 where
  pub verifiers : List VerifierInfo
  pub is_loading : Bool
  pub error_message : Option String
  pub stats : Option AdminStats
  pub show_register : Bool
  pub is_registering : Bool
  pub register_address_value : String
  pub configuring_verifier : Option String
  pub selected_methodologies : List String
  pub selected_geographies : List String
  pub is_configuring : Bool
  pub suspending_verifier : Option String
  pub is_suspending : Bool
  pub browser : Browser

-- The answers that `load` waits for together; where both fail, the first of them comes first.
pub record LoadAnswers : Type 0 where
  pub verifiers : Outcome (List VerifierInfo)
  pub stats : Outcome AdminStats

abbrev pub load_failed : Rejection → Page → Page
load_failed e p = record p {
  error_message = some (message_of "Failed to load verifiers." e);
  is_loading = false;
}

abbrev pub end_load : Outcome (List VerifierInfo) → Outcome AdminStats → Page → Page
end_load (fulfilled list) (fulfilled stats) p = record p {
  verifiers = list;
  stats = some stats;
  is_loading = false;
}
end_load (fulfilled list) (rejected e) p = load_failed e p
end_load (rejected e) stats p = load_failed e p

pub load : LoadAnswers → Page → Page
load a p = end_load a.verifiers a.stats (record p { is_loading = true; error_message = none })

pub open_register : Page → Page
open_register p = record p { register_address_value = ""; show_register = true }

pub close_register : Page → Page
close_register p = record p { show_register = false }

-- `show` with its default duration.
abbrev pub toast : String → ToastType → Page → Page
toast message type p = record p { browser = show message type 5000 p.browser }

abbrev pub end_register : Outcome Registered → LoadAnswers → Page → Page
end_register (fulfilled r) a p =
    record (load a
      (record (toast "Verifier registered successfully." success p) { show_register = false })) {
        is_registering = false;
      }
end_register (rejected e) a p = record (toast (message_of "Registration failed." e) error p) {
  is_registering = false;
}

pub submit_register : (String → Outcome Registered) → LoadAnswers → Page → Page
unfolding load
submit_register post a p =
    let address = trim p.register_address_value in
    if is_empty address
    then p
    else end_register (post address) a (record p { is_registering = true })

pub open_configure : String → Page → Page
open_configure address p = record p {
  configuring_verifier = some address;
  selected_methodologies = [];
  selected_geographies = [];
}

pub close_configure : Page → Page
close_configure p = record p { configuring_verifier = none }

-- The list that both toggles set.
pub toggled : String → List String → List String
toggled m current =
    if any (λ x. x === m) current then filter (λ x. not (x === m)) current else current ++ m ∷ []

pub toggle_methodology : String → Page → Page
unfolding toggled
toggle_methodology m p = record p { selected_methodologies = toggled m p.selected_methodologies }

pub toggle_geography : String → Page → Page
unfolding toggled
toggle_geography g p = record p { selected_geographies = toggled g p.selected_geographies }

abbrev pub end_configure : Outcome Configured → Page → Page
end_configure (fulfilled c) p = record (toast "Capabilities saved." success p) {
  configuring_verifier = none;
  is_configuring = false;
}
end_configure (rejected e) p = record (toast (message_of "Configuration failed." e) error p) {
  is_configuring = false;
}

pub submit_configure : (String → VerifierConfig → Outcome Configured) → Page → Page
submit_configure post p = elim p.configuring_verifier [
  | none ↦ p
  | some id ↦
      if is_empty id
      then p
      else end_configure
          (post id (record {
            methodologies = some p.selected_methodologies;
            geographies = some p.selected_geographies;
          }))
          (record p { is_configuring = true })
]

pub open_suspend : String → Page → Page
open_suspend address p = record p { suspending_verifier = some address }

pub close_suspend : Page → Page
close_suspend p = record p { suspending_verifier = none }

abbrev pub end_suspend : Outcome Suspended → LoadAnswers → Page → Page
end_suspend (fulfilled s) a p =
    record (load a
      (record (toast "Verifier suspended." success p) { suspending_verifier = none })) {
        is_suspending = false;
      }
end_suspend (rejected e) a p = record (toast (message_of "Suspend failed." e) error p) {
  is_suspending = false;
}

pub confirm_suspend : (String → Outcome Suspended) → LoadAnswers → Page → Page
unfolding load
confirm_suspend post a p = elim p.suspending_verifier [
  | none ↦ p
  | some id ↦ if is_empty id then p else end_suspend (post id) a (record p { is_suspending = true })
]
