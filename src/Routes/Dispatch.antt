-- ===== src/Routes/Dispatch.antt =====
-- Where the requests of the web application arrive.
use mathlib.Core.Option
use carbonchain.Prelude.{
  ℕ, String, ◌≡◌, refl, ◌∙◌, Bool, true, false, ◌&&◌, ◌||◌, not, Option, none, some, List, [], ◌∷◌,
  leb, ◌==◌, ◌===◌, is_empty, find, any, All, Bool-cases, inl, inr,
}
use carbonchain.Prelude.Text.{all_units}
use carbonchain.Routes
use carbonchain.Routes.{
  Method, get, post, delete, Segment, literal, param, Guard, jwt, admin, Handler, Route, mounted,
}
use carbonchain.Routes.Requests.{
  HttpRequest, ApiCall, get_challenge, get_token, get_me, list_projects, get_project,
  create_project, get_credit, list_credits_by_project, get_listings, get_offer,
  get_offers_by_seller, retire_credit, get_retirement, create_offer, list_verifiers,
  get_admin_stats, register_verifier, suspend_verifier, configure_verifier, request_of, dev_proxy,
  nginx,
}

abbrev same_method : Method → Method → Bool
same_method get get = true
same_method post post = true
same_method delete delete = true
same_method _ _ = false

abbrev fits : List Segment → List String → Bool
fits [] [] = true
fits (literal l ∷ ps) (v ∷ vs) = l === v && fits ps vs
fits (param name ∷ ps) (v ∷ vs) = fits ps vs
fits _ _ = false

abbrev pub answers : Method → List String → Route → Bool
answers m vs r = same_method r.method m && fits r.path vs

-- A letter, a digit, `-` or `_`.
abbrev is_plain_unit : ℕ → Bool
is_plain_unit u =
    (leb 97 u && leb u 122)
    || (leb 65 u && leb u 90)
    || (leb 48 u && leb u 57)
    || u == 45
    || u == 95

-- A text that stands in a path as it is.
abbrev pub is_plain : String → Bool
is_plain s = not (is_empty s) && all_units is_plain_unit s

-- The HTTP server of the framework: `url` joins segments by slashes.
pub record Router : Type 1 where
  pub Url : Type 0
  pub url : List String → Url
  pub dispatch : List Route → Method → Url → Option Route

-- The documented behaviour: the first route with the method of the request answers whose segments fit
-- those of the path, a parameter fitting any.
pub record RouterLaws (r : Router) : Type 0 where
  pub dispatch_first :
      (rs : List Route) (m : Method) (vs : List String)
      → All (λ v. is_plain v ≡ true) vs
      → r.dispatch rs m (r.url vs) ≡ find (answers m vs) rs

-- The handler that each call is meant for, if it has one.
unfoldable pub handler_of : ApiCall → Option Handler
handler_of (get_challenge account) = some Routes.get_challenge
handler_of (get_token xdr) = some Routes.get_token
handler_of (get_me token) = some Routes.get_me
handler_of list_projects = some Routes.list_projects
handler_of (get_project id) = some Routes.get_one
handler_of (create_project project token) = some Routes.create_project
handler_of (get_credit id) = some Routes.get_credit
handler_of (list_credits_by_project project_id) = some Routes.list_by_project
handler_of get_listings = none
handler_of (get_offer id) = some Routes.get_offer
handler_of (get_offers_by_seller address) = some Routes.get_offers_by_seller
handler_of (retire_credit buyer credit_id tonnes reason token) = some Routes.retire
handler_of (get_retirement id) = some Routes.get_retirement
handler_of (create_offer seller credit_id price_xlm tonnes token) = some Routes.create_offer
handler_of list_verifiers = some Routes.list_verifiers
handler_of (get_admin_stats token) = none
handler_of (register_verifier address token) = none
handler_of (suspend_verifier id token) = none
handler_of (configure_verifier id config token) = none

abbrev is_jwt : Guard → Bool
is_jwt jwt = true
is_jwt admin = false

abbrev has_token : Option String → Bool
has_token none = false
has_token (some t) = true

-- A request for a route behind the JWT guard brings a token.
abbrev pub is_authorised : HttpRequest → Option Route → Bool
is_authorised q none = true
is_authorised q (some r) = not (any is_jwt r.guards) || has_token q.token

found :
    (q : ApiCall)
    → let h = request_of q in
      let o = find (answers h.method (dev_proxy h.path)) mounted in
      (Option.map (λ r. r.handler) o ≡ handler_of q) × (is_authorised h o ≡ true)
unfolding handler_of mounted request_of dev_proxy
found (get_challenge account) = (refl, refl)
found (get_token xdr) = (refl, refl)
found (get_me token) = (refl, refl)
found list_projects = (refl, refl)
found (get_project id) = (refl, refl)
found (create_project project token) = (refl, refl)
found (get_credit id) = (refl, refl)
found (list_credits_by_project project_id) = (refl, refl)
found get_listings = (refl, refl)
found (get_offer id) = (refl, refl)
found (get_offers_by_seller address) = (refl, refl)
found (retire_credit buyer credit_id tonnes reason token) = (refl, refl)
found (get_retirement id) = (refl, refl)
found (create_offer seller credit_id price_xlm tonnes token) = (refl, refl)
found list_verifiers = (refl, refl)
found (get_admin_stats token) = (refl, refl)
found (register_verifier address token) = (refl, refl)
found (suspend_verifier id token) = (refl, refl)
found (configure_verifier id config token) = (refl, refl)

lost :
    (q : ApiCall) → find (answers (request_of q).method (nginx (request_of q).path)) mounted ≡ none
unfolding mounted request_of nginx
lost (get_challenge account) = refl
lost (get_token xdr) = refl
lost (get_me token) = refl
lost list_projects = refl
lost (get_project id) = refl
lost (create_project project token) = refl
lost (get_credit id) = refl
lost (list_credits_by_project project_id) = refl
lost get_listings = refl
lost (get_offer id) = refl
lost (get_offers_by_seller address) = refl
lost (retire_credit buyer credit_id tonnes reason token) = refl
lost (get_retirement id) = refl
lost (create_offer seller credit_id price_xlm tonnes token) = refl
lost list_verifiers = refl
lost (get_admin_stats token) = refl
lost (register_verifier address token) = refl
lost (suspend_verifier id token) = refl
lost (configure_verifier id config token) = refl

tail-All :
    (vs : List String)
    → All (λ v. is_plain v ≡ true) vs
    → All (λ v. is_plain v ≡ true) (dev_proxy vs)
unfolding dev_proxy
tail-All [] h = tt
tail-All (v ∷ vs) (p, h) = elim (Bool-cases (v === "api")) [ inl e ↦ rw e h | inr e ↦ rw e (p, h) ]

-- If the parameters of a call stand in its path as they are, the request that the web application makes
-- for it arrives, through the development proxy, at the handler that it is meant for, and with a token
-- where the route asks for one; but no route answers the calls for the listings and for the admin pages.
-- Through the production proxy, which keeps `/api`, no route answers any call.
pub dispatch_lem :
    (r : Router) (laws : RouterLaws r) (q : ApiCall)
    → All (λ v. is_plain v ≡ true) (request_of q).path
    → let h = request_of q in
      let o = r.dispatch mounted h.method (r.url (dev_proxy h.path)) in
      (Option.map (λ x. x.handler) o ≡ handler_of q)
      × (is_authorised h o ≡ true)
      × (r.dispatch mounted h.method (r.url (nginx h.path)) ≡ none)
unfolding nginx
dispatch_lem r laws q plain =
    let h = request_of q in
    let dev = laws.dispatch_first mounted h.method (dev_proxy h.path) (tail-All h.path plain) in
    let prod = laws.dispatch_first mounted h.method h.path plain in
    let (handled, authorised) = found q in (rw dev handled, rw dev authorised, prod ∙ lost q)
