-- ===== src/Lib.antt =====
-- Carbonchain: a registry of carbon credits on Stellar with a NestJS API in front of it and an
-- Angular web application. This library models the program's own logic: the services that stand between
-- HTTP, the contracts and Redis, and the stores, the login and the forms of the web application.
--
-- How the parts interact. The credit service issues credits on the chain and keeps an off-chain index
-- of them; it reads through a Redis cache, then the index, then the contract. The retirement service
-- does the same for retirements and emits an event for each. The event indexer polls the contracts,
-- keeps their events, drops cached listings when the status of a credit changes, and triggers the
-- webhook service, which posts to subscribers and retries what was rejected. The rate limiter and the
-- SEP-10 authentication stand in front of the controllers. The web application logs in with the Freighter
-- extension against that authentication, keeps what it loads in stores, and sends its requests through a
-- proxy to the routes of the controllers.
--
-- The files and what they model:
--   Prelude          shared helpers: JavaScript's Map, slice, BigInt, trim and exceptions
--   Shared           shared/index.ts: the data of the API
--   Paging           `paginate` of api/src/credits/credit.repository.ts and of the retirement repository
--   Throttler        api/src/common/throttler.guard.ts: `can_activate` is canActivate
--   Cache            api/src/common/cache.service.ts: `cache_get`, `cache_set`, `cache_del` and
--                    `cache_del_pattern` are get, set, del and delPattern
--   External         the SDK's conversions and the contract calls, as parameters
--   Keypair          api/src/stellar/stellar-keypair.service.ts
--   Credits          api/src/credits: Repository (the index), Listing (the filters of listCredits),
--                    Methodologies (methodologies.ts), Service (credits.service.ts),
--                    Controller (the query of credits.controller.ts)
--   Webhooks         api/src/webhooks/webhooks.service.ts
--   Events           api/src/events/events.service.ts and getContractEvents of
--                    api/src/stellar/stellar.service.ts
--   Auth             api/src/auth/auth.service.ts, auth/stellar-auth.strategy.ts, admin/admin.guard.ts
--   Stellar          api/src/stellar/stellar.service.ts: `invoke_contract`, `read_contract` and
--                    `poll_transaction_status`; `contract_client` fills the interface of External;
--                    Ledger: `build_and_submit` and `get_contract_data`
--   Projects         api/src/projects/projects.service.ts
--   Marketplace      api/src/marketplace/marketplace.service.ts
--   Verifiers        api/src/verifiers/verifiers.service.ts
--   Oracle           api/src/oracle/oracle.service.ts
--   Admin            api/src/admin/admin.service.ts
--   Routes           the decorators of api/src/**/*.controller.ts and api/src/app.module.ts; Requests:
--                    frontend/src/app/core/services/api.service.ts and the two proxies
--   Frontend         frontend/src/app: Store (core/store/credit.store.ts; Offers: marketplace.store.ts),
--                    Toasts (toast.service.ts, global-error.handler.ts), Wallet
--                    (stellar-wallet.service.ts), Session (auth.service.ts and the guards), Retire
--                    (retire/retire.component.ts), VerifierAdmin (admin/admin-verifiers.component.ts),
--                    ProjectDetail (projects/project-detail.component.ts), Dashboard
--                    (dashboard/dashboard.component.ts), CreditDetail
--                    (credits/credit-detail.component.ts), Marketplace (marketplace/ and
--                    core/components/connect-wallet.component.ts), Preferences (theme.service.ts and
--                    translation.service.ts)
--   Validation       the bodies of requests: the pipe of api/src/main.ts, the classes under api/src/**/dto,
--                    and the handlers that take them
--   Settings         the network that api/src/app.module.ts admits
--   Retirement       api/src/retirement: Repository (the interface and the in-memory one), Service,
--                    CertificateService (certificate.service.ts)
-- A function keeps the name of the method it models, in lower case with underscores. The fields of a
-- service class are a record or the arguments of its functions; a method that changes them returns the
-- new ones. What throws returns a `Result`, and what was written before stays written. In the web
-- application the code after an `await` is a function of its own on the outcome of the promise, so that
-- other calls can come in between.
--
-- Parameters. Redis, the Stellar SDK, the RPC server, the contracts, JSON, HTTP posts, random ids, the
-- JWT signer, the listeners of events, Node's crypto, the Freighter extension and the router of the
-- framework are arguments. What a theorem relies on is a record of laws
-- (RedisLaws, JsonLaws, RepositoryLaws, WalletLaws, CryptoLaws,
-- RouterLaws, ClassValidatorLaws, LocalStorageLaws, ReadsOnly) or of what is observed (Log, Emitted),
-- each filled by a concrete instance in the tests. The clock is an argument or part of the environment;
-- times, ledgers and sizes are natural numbers. Page numbers and limits are integers and exact, as
-- the code's are below 2^53 (those that are not numbers are left out); tonnes are integers of any size.
-- Concurrent requests are sequences of calls. All loops are structural recursions; the polling of a
-- transaction counts down the ten attempts of the code.
--
-- Not modelled: start-up and dependency injection, the pipes of single parameters, logging, the error
-- reports of the web application and, of its templates, formats, styles and texts in other languages;
-- the contracts in Rust, which the services see through the contract interface.
pub mod Prelude
pub mod Throttler
pub mod Webhooks
pub mod Shared
pub mod Paging
pub mod Cache
pub mod External
pub mod Keypair
pub mod Stellar
pub mod Credits
pub mod Events
pub mod Auth
pub mod Retirement
pub mod Projects
pub mod Marketplace
pub mod Frontend
pub mod Verifiers
pub mod Oracle
pub mod Admin
pub mod Routes
pub mod Settings
pub mod Validation
