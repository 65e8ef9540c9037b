-- ===== src/Routes/Requests.antt =====
-- frontend/src/app/core/services/api.service.ts: the requests of the web application, and what the
-- proxies in front of the API make of their paths.
use carbonchain.Prelude.{ℕ, String, Option, none, some, List, [], ◌∷◌, ◌===◌, if◌then◌else◌}
use carbonchain.Prelude.Decimal.{decimal}
use carbonchain.Routes.{Method, get, post}

pub record VerifierConfig : Type 0 where
  pub methodologies : Option (List String)
  pub geographies : Option (List String)

-- A project profile without its id.
pub record NewProject : Type 0 where
  pub name : String
  pub developer : String
  pub description : String
  pub location : String
  pub methodology : String
  pub documents_cid : String

-- A body is the object of its fields.
pub data Value : Type 0 where
  text : String → Value
  texts : Option (List String) → Value

-- `path` has the segments between the slashes of the URL; `token` is what `authHeaders` is given.
pub record HttpRequest : Type 0 where
  pub method : Method
  pub path : List String
  pub query : List (String × String)
  pub body : List (String × Value)
  pub token : Option String

-- The calls of the service with their parameters.
pub data ApiCall : Type 0 where
  get_challenge get_token get_me : String → ApiCall
  list_projects : ApiCall
  get_project : String → ApiCall
  create_project : NewProject → String → ApiCall
  get_credit list_credits_by_project : String → ApiCall
  get_listings : ApiCall
  get_offer : ℕ → ApiCall
  get_offers_by_seller : String → ApiCall
  retire_credit : String → String → String → String → String → ApiCall
  get_retirement : String → ApiCall
  create_offer : String → String → String → String → String → ApiCall
  list_verifiers : ApiCall
  get_admin_stats : String → ApiCall
  register_verifier : String → String → ApiCall
  suspend_verifier : String → String → ApiCall
  configure_verifier : String → VerifierConfig → String → ApiCall

abbrev pub http_get : List String → Option String → HttpRequest
http_get path token = record {
  method = get;
  path = "api" ∷ path;
  query = [];
  body = [];
  token = token;
}

abbrev pub http_post : List String → List (String × Value) → Option String → HttpRequest
http_post path body token = record {
  method = post;
  path = "api" ∷ path;
  query = [];
  body = body;
  token = token;
}

abbrev project_body : NewProject → List (String × Value)
project_body d =
    ("name", text d.name)
    ∷ ("developer", text d.developer)
    ∷ ("description", text d.description)
    ∷ ("location", text d.location)
    ∷ ("methodology", text d.methodology)
    ∷ ("documents_cid", text d.documents_cid)
    ∷ []

unfoldable pub request_of : ApiCall → HttpRequest
request_of (get_challenge account) = record (http_get ("auth" ∷ "challenge" ∷ []) none) {
  query = ("account", account) ∷ [];
}
request_of (get_token xdr) = http_post ("auth" ∷ "token" ∷ []) (("transaction", text xdr) ∷ []) none
request_of (get_me token) = http_get ("auth" ∷ "me" ∷ []) (some token)
request_of list_projects = http_get ("projects" ∷ []) none
request_of (get_project id) = http_get ("projects" ∷ id ∷ []) none
request_of (create_project project token) =
    http_post ("projects" ∷ []) (project_body project) (some token)
request_of (get_credit id) = http_get ("credits" ∷ id ∷ []) none
request_of (list_credits_by_project project_id) =
    http_get ("credits" ∷ "project" ∷ project_id ∷ []) none
request_of get_listings = http_get ("marketplace" ∷ "listings" ∷ []) none
request_of (get_offer id) = http_get ("marketplace" ∷ "offer" ∷ decimal id ∷ []) none
request_of (get_offers_by_seller address) = http_get ("marketplace" ∷ "seller" ∷ address ∷ []) none
request_of (retire_credit buyer credit_id tonnes reason token) =
    http_post ("retirement" ∷ [])
      (("buyerPublicKey", text buyer)
        ∷ ("creditId", text credit_id)
        ∷ ("tonnes", text tonnes)
        ∷ ("reason", text reason)
        ∷ [])
      (some token)
request_of (get_retirement id) = http_get ("retirement" ∷ id ∷ []) none
request_of (create_offer seller credit_id price_xlm tonnes token) =
    http_post ("marketplace" ∷ "offer" ∷ [])
      (("sellerPublicKey", text seller)
        ∷ ("creditId", text credit_id)
        ∷ ("priceXlm", text price_xlm)
        ∷ ("tonnes", text tonnes)
        ∷ [])
      (some token)
request_of list_verifiers = http_get ("verifiers" ∷ []) none
request_of (get_admin_stats token) = http_get ("admin" ∷ "stats" ∷ []) (some token)
request_of (register_verifier address token) =
    http_post ("admin" ∷ "verifiers" ∷ "register" ∷ []) (("address", text address) ∷ [])
      (some token)
request_of (suspend_verifier id token) =
    http_post ("admin" ∷ "verifiers" ∷ id ∷ "suspend" ∷ []) [] (some token)
request_of (configure_verifier id config token) =
    http_post ("admin" ∷ "verifiers" ∷ id ∷ "configure" ∷ [])
      (("methodologies", texts config.methodologies)
        ∷ ("geographies", texts config.geographies)
        ∷ [])
      (some token)

-- frontend/proxy.conf.json: the development server takes `/api` off the path.
unfoldable pub dev_proxy : List String → List String
dev_proxy [] = []
dev_proxy (s ∷ path) = if s === "api" then path else s ∷ path

-- frontend/nginx.conf: `/api/` is passed on as `/api/`.
unfoldable pub nginx : List String → List String
nginx path = path
