-- ===== src/Routes.antt =====
-- The routes of the API: the decorators of its controllers (api/src/**/*.controller.ts) and the modules
-- that api/src/app.module.ts imports. A handler has the name of its method; what it does with its
-- parameters is in the models of the services.
pub mod Requests
pub mod Dispatch
pub mod Sample
mod Tests
use carbonchain.Prelude.{String, Bool, true, false, List, [], ◌∷◌, ◌++◌, ◌&&◌, ◌===◌, Option}

pub data Method : Type 0 where
  get post delete : Method

pub data Segment : Type 0 where
  literal : String → Segment
  param : String → Segment

pub data Guard : Type 0 where
  jwt admin : Guard

pub data Handler : Type 0 where
  get_hello : Handler
  get_stats register_verifier suspend_verifier configure_verifier flag_credit : Handler
  get_challenge get_token get_me : Handler
  issue_credit get_bulk_credits list_credits get_credit list_by_project : Handler
  get_events get_event_by_id : Handler
  create_offer get_offer get_offers_by_seller cancel_offer buy_offer : Handler
  ingest_mrv : Handler
  create_project get_one list_projects : Handler
  retire list_retirements get_retirement get_by_account verify_certificate : Handler
  list_verifiers get_verifier get_pending_credits get_approval_history : Handler
  register_webhook get_webhooks get_webhook delete_webhook : Handler

pub record Route : Type 0 where
  pub method : Method
  pub path : List Segment
  pub guards : List Guard
  pub handler : Handler

abbrev route : Method → List Segment → List Guard → Handler → Route
route m p g h = record { method = m; path = p; guards = g; handler = h }

pub app_routes : List Route
app_routes = route get [] [] get_hello ∷ []

pub admin_routes : List Route
admin_routes =
    let base = literal "admin" in
    let guards = jwt ∷ admin ∷ [] in
    route get (base ∷ literal "stats" ∷ []) guards get_stats
    ∷ route post (base ∷ literal "verifiers" ∷ literal "register" ∷ []) guards register_verifier
    ∷ route post (base ∷ literal "verifiers" ∷ param "id" ∷ literal "suspend" ∷ []) guards
        suspend_verifier
    ∷ route post (base ∷ literal "verifiers" ∷ param "id" ∷ literal "configure" ∷ []) guards
        configure_verifier
    ∷ route post (base ∷ literal "credits" ∷ param "id" ∷ literal "flag" ∷ []) guards flag_credit
    ∷ []

pub auth_routes : List Route
auth_routes =
    let base = literal "auth" in
    route get (base ∷ literal "challenge" ∷ []) [] get_challenge
    ∷ route post (base ∷ literal "token" ∷ []) [] get_token
    ∷ route get (base ∷ literal "me" ∷ []) (jwt ∷ []) get_me
    ∷ []

pub credits_routes : List Route
credits_routes =
    let base = literal "credits" in
    route post (base ∷ literal "issue" ∷ []) (jwt ∷ []) issue_credit
    ∷ route post (base ∷ literal "bulk" ∷ []) [] get_bulk_credits
    ∷ route get (base ∷ []) [] list_credits
    ∷ []

-- The routes of the same controller that name a credit or a project.
pub credit_id_routes : List Route
credit_id_routes =
    let base = literal "credits" in
    route get (base ∷ param "id" ∷ []) [] get_credit
    ∷ route get (base ∷ literal "project" ∷ param "projectId" ∷ []) [] list_by_project
    ∷ []

pub events_routes : List Route
events_routes =
    let base = literal "events" in
    route get (base ∷ []) [] get_events
    ∷ route get (base ∷ param "eventId" ∷ []) [] get_event_by_id
    ∷ []

pub marketplace_routes : List Route
marketplace_routes =
    let base = literal "marketplace" in
    let offer = literal "offer" in
    route post (base ∷ offer ∷ []) (jwt ∷ []) create_offer
    ∷ route get (base ∷ offer ∷ param "id" ∷ []) [] get_offer
    ∷ route get (base ∷ literal "seller" ∷ param "address" ∷ []) [] get_offers_by_seller
    ∷ route delete (base ∷ offer ∷ param "id" ∷ literal "seller" ∷ param "address" ∷ []) []
        cancel_offer
    ∷ route post (base ∷ offer ∷ param "id" ∷ literal "buy" ∷ []) (jwt ∷ []) buy_offer
    ∷ []

pub oracle_routes : List Route
oracle_routes = route post (literal "oracle" ∷ literal "mrv" ∷ []) [] ingest_mrv ∷ []

pub projects_routes : List Route
projects_routes =
    let base = literal "projects" in
    route post (base ∷ []) [] create_project
    ∷ route get (base ∷ param "id" ∷ []) [] get_one
    ∷ route get (base ∷ []) [] list_projects
    ∷ []

pub retirement_routes : List Route
retirement_routes =
    let base = literal "retirement" in
    route post (base ∷ []) (jwt ∷ []) retire
    ∷ route get (base ∷ []) [] list_retirements
    ∷ route get (base ∷ param "id" ∷ []) [] get_retirement
    ∷ route get (base ∷ literal "account" ∷ param "address" ∷ []) [] get_by_account
    ∷ route get (base ∷ literal "certificates" ∷ param "id" ∷ literal "verify" ∷ []) []
        verify_certificate
    ∷ []

pub verifiers_routes : List Route
verifiers_routes =
    let base = literal "verifiers" in
    route get (base ∷ []) [] list_verifiers
    ∷ route get (base ∷ param "address" ∷ []) [] get_verifier
    ∷ route get (base ∷ param "id" ∷ literal "pending" ∷ []) (jwt ∷ []) get_pending_credits
    ∷ route get (base ∷ param "id" ∷ literal "history" ∷ []) (jwt ∷ []) get_approval_history
    ∷ []

pub webhooks_routes : List Route
webhooks_routes =
    let base = literal "webhooks" in
    route post (base ∷ []) [] register_webhook
    ∷ route get (base ∷ []) [] get_webhooks
    ∷ route get (base ∷ param "id" ∷ []) [] get_webhook
    ∷ route delete (base ∷ param "id" ∷ []) [] delete_webhook
    ∷ []

-- The controllers of the modules that `AppModule` imports, in their order, and its own.
pub mounted : List Route
unfolding app_routes credits_routes credit_id_routes projects_routes auth_routes verifiers_routes
    retirement_routes marketplace_routes events_routes webhooks_routes
mounted =
    app_routes ++ credits_routes ++ credit_id_routes ++ projects_routes ++ auth_routes
    ++ verifiers_routes ++ retirement_routes ++ marketplace_routes ++ events_routes
    ++ webhooks_routes
