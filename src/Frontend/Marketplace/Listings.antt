-- ===== src/Frontend/Marketplace/Listings.antt =====
-- The list of offers against the routes of the API.
use mathlib.Core.Option
use carbonchain.Prelude.{◌≡◌, refl, Option, none, some, List}
use carbonchain.Shared.{Offer}
use carbonchain.Frontend.{Outcome, rejected, other, message_of}
use carbonchain.Frontend.Marketplace.{MarketplaceList, load, end_listings, shown_list, failure}
use carbonchain.Routes.{Route, mounted}
use carbonchain.Routes.Requests.{get_listings, request_of, dev_proxy, nginx}
use carbonchain.Routes.Dispatch.{Router, RouterLaws, dispatch_lem, handler_of}

-- A request without a route is answered by status 404, which the HTTP client rejects.
abbrev pub served : Option Route → Outcome (List Offer) → Outcome (List Offer)
served none answer = rejected other
served (some r) answer = answer

nothing_handled : (o : Option Route) → Option.map (λ x. x.handler) o ≡ none → o ≡ none
nothing_handled none e = refl
nothing_handled (some r) e = cc

shown-served :
    (o : Option Route) (answer : Outcome (List Offer)) (l : MarketplaceList)
    → o ≡ none
    → shown_list (load (served o answer) l) ≡ failure "Failed to load listings."
unfolding load end_listings shown_list message_of
shown-served o answer l missing = rw missing refl

-- The list always fails to load, whatever it showed before and whatever the service would answer: no
-- route answers its request, neither through the development proxy nor through the production proxy.
pub load-dispatch :
    (r : Router) (laws : RouterLaws r) (l : MarketplaceList) (answer : Outcome (List Offer))
    → let h = request_of get_listings in
      (shown_list (load (served (r.dispatch mounted h.method (r.url (dev_proxy h.path))) answer) l)
        ≡ failure "Failed to load listings.")
      × (shown_list (load (served (r.dispatch mounted h.method (r.url (nginx h.path))) answer) l)
          ≡ failure "Failed to load listings.")
unfolding request_of handler_of
load-dispatch r laws l answer =
    let h = request_of get_listings in
    let (dev, _, prod) = dispatch_lem r laws get_listings (refl, (refl, (refl, tt))) in
    (shown-served _ answer l (nothing_handled _ dev), shown-served _ answer l prod)
