-- ===== src/Frontend/VerifierAdmin/Tests.antt =====
-- The admin page at concrete inputs.

use carbonchain.Prelude.{◌≡◌, refl, false, none, List, [], ◌∷◌}
use carbonchain.Prelude.Text.{trim}
use carbonchain.Frontend.{rejected, other}
use carbonchain.Frontend.Toasts.{page_loaded}
use carbonchain.Frontend.VerifierAdmin.{
  Page, LoadAnswers, open_register, open_configure, toggled, toggle_methodology, toggle_geography,
  submit_register,
}
use carbonchain.Frontend.VerifierAdmin.Selection.{Box, methodology, geography, click, click_all}

abbrev page : Page
page = record {
  verifiers = [];
  is_loading = false;
  error_message = none;
  stats = none;
  show_register = false;
  is_registering = false;
  register_address_value = "";
  configuring_verifier = none;
  selected_methodologies = "VCS" ∷ [];
  selected_geographies = [];
  is_configuring = false;
  suspending_verifier = none;
  is_suspending = false;
  browser = page_loaded;
}

abbrev failing : LoadAnswers
failing = record { verifiers = rejected other; stats = rejected other }

-- A blank address registers nobody.
blank : submit_register (λ a. rejected other) failing (open_register page) ≡ open_register page
unfolding submit_register open_register trim
blank = refl

abbrev clicks : List Box
clicks =
    methodology "VM" ∷ geography "VM" ∷ methodology "GS" ∷ methodology "VM" ∷ methodology "VM" ∷ []

clicked : (click_all clicks (open_configure "GV" page)).selected_methodologies ≡ "GS" ∷ "VM" ∷ []
unfolding click_all click open_configure toggle_methodology toggle_geography toggled
clicked = refl
