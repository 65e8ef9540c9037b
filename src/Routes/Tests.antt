-- ===== src/Routes/Tests.antt =====
-- Where requests arrive at concrete calls.
use mathlib.Core.Option
use carbonchain.Prelude.{◌≡◌, refl, true, none, some}
use carbonchain.Routes
use carbonchain.Routes.{Handler, Method, Route, mounted}
use carbonchain.Routes.Requests.{get_credit, get_listings, request_of, dev_proxy, nginx}
use carbonchain.Routes.Sample.{router, router_laws}
use carbonchain.Routes.Dispatch.{handler_of, is_authorised, dispatch_lem}

-- The list of offers that the marketplace page asks for has no route.
no_listings : handler_of get_listings ≡ none
unfolding handler_of
no_listings = refl

dispatch_lem_example :
    let h = request_of (get_credit "0a1b") in
    let o = router.dispatch mounted h.method (router.url (dev_proxy h.path)) in
    (Option.map (λ x. x.handler) o ≡ some Routes.get_credit)
    × (is_authorised h o ≡ true)
    × (router.dispatch mounted h.method (router.url (nginx h.path)) ≡ none)
unfolding request_of handler_of
dispatch_lem_example =
    dispatch_lem router router_laws (get_credit "0a1b") (refl, (refl, (refl, tt)))
