-- ===== src/Frontend/CreditDetail.antt =====
-- frontend/src/app/credits/credit-detail.component.ts: the page of a credit, with the buttons of its
-- owner. The code after the `await` is a function on the answer.
pub mod Buttons
mod Tests
use carbonchain.Prelude.{
  String, Bool, true, false, ◌&&◌, not, Option, none, some, List, [], ◌∷◌, ◌===◌, is_empty,
  if◌then◌else◌,
}
use carbonchain.Shared.{CreditMetadata, MrvDataPoint, status_text}
use carbonchain.Frontend.{Outcome, fulfilled, rejected, message_of}

pub record CreditDetail : Type 0 where
  pub credit : Option CreditMetadata
  pub loading : Bool
  pub error : Option String
  pub mrv_history : List MrvDataPoint

abbrev pub new_page : CreditDetail
new_page = record { credit = none; loading = true; error = none; mrv_history = [] }

-- `ngOnInit` after its await, the `finally` included.
unfoldable pub end_get_credit : Outcome CreditMetadata → CreditDetail → CreditDetail
end_get_credit (fulfilled c) p = record p { credit = some c; loading = false }
end_get_credit (rejected e) p = record p {
  error = some (message_of "Failed to load credit." e);
  loading = false;
}

-- `!!c && !!pk && c.issuer === pk`
abbrev pub owned_by : Option CreditMetadata → Option String → Bool
owned_by none key = false
owned_by (some c) none = false
owned_by (some c) (some key) = not (is_empty key) && c.issuer === key

-- `isOwner` for the key of the wallet.
unfoldable pub is_owner : Option String → CreditDetail → Bool
is_owner key p = owned_by p.credit key

-- What the template shows first: the spinner, the error, or the credit.
pub data Shown : Type 0 where
  spinner nothing : Shown
  message : String → Shown
  details : CreditMetadata → Shown

abbrev pub shown_credit : Option CreditMetadata → Shown
shown_credit none = nothing
shown_credit (some c) = details c

abbrev pub shown_error : Option String → Shown → Shown
shown_error none otherwise = otherwise
shown_error (some e) otherwise = if is_empty e then otherwise else message e

unfoldable pub shown : CreditDetail → Shown
shown p = if p.loading then spinner else shown_error p.error (shown_credit p.credit)

-- Where a button leads, with the parameters of the address.
pub record Navigation : Type 0 where
  pub path : String
  pub query_params : List (String × String)

abbrev pub retire : CreditMetadata → Navigation
retire c = record { path = "/retire"; query_params = ("creditId", c.id) ∷ [] }

abbrev pub sell : CreditMetadata → Navigation
sell c = record { path = "/marketplace"; query_params = ("sell", c.id) ∷ [] }

abbrev buttons_of : Bool → Shown → List Navigation
buttons_of owner (details c) =
    if owner && status_text c.status === "Active" then retire c ∷ sell c ∷ [] else []
buttons_of owner _ = []

-- The buttons that can be clicked, for the key of the wallet.
unfoldable pub enabled_buttons : Option String → CreditDetail → List Navigation
unfolding is_owner shown
enabled_buttons key p = buttons_of (is_owner key p) (shown p)
