-- ===== src/Frontend/Dashboard/Visits.antt =====
-- Which retirements the dashboard shows on a visit with a wallet, and after one is connected.
use carbonchain.Prelude.{
  String, ◌≡◌, ◌∙◌, ap, refl, ◌⊎◌, inl, inr, false, Option, none, some, List, [], map, filter,
  ◌===◌,
}
use carbonchain.Shared.{CreditMetadata, status_text, RetirementRecord}
use carbonchain.Frontend.{fulfilled, rejected, Rejection, message_of, promise_all, Outcome-cases}
use carbonchain.Frontend.Store.{CreditStore, begin_load, end_load_by_project, retired_credits}
use carbonchain.Frontend.Dashboard.{
  Dashboard, new_dashboard, DashboardAnswers, begin_load_retirements, present, end_load_retirements,
  answered_retirements, answered_credits, on_init, connect_wallet,
}

-- The two loads write different signals: the order of their answers makes no difference.
pub answers_comm :
    (a : DashboardAnswers) (key : String) (ids : List String) (d : Dashboard)
    → answered_retirements a ids (answered_credits a key d)
      ≡ answered_credits a key (answered_retirements a ids d)
unfolding answered_retirements answered_credits end_load_retirements
answers_comm a key ids d = elim (Outcome-cases (promise_all (map a.get_retirement ids))) [
  | inl (rs, e) ↦ rw e refl
  | inr (x, e) ↦ rw e refl
]

-- The retirements that belong to these credits, by the ids of the credits.
abbrev pub asked : List CreditMetadata → List String
asked cs = map (λ c. c.id) (filter (λ c. status_text c.status === "Retired") cs)

-- All retirements that were asked for are shown, or none because one request was rejected; the loading is
-- over.
pub RetirementsShown : DashboardAnswers → List String → Dashboard → Type 0
RetirementsShown a ids d =
    ((rs : List (Option RetirementRecord)) × (promise_all (map a.get_retirement ids) ≡ fulfilled rs)
      × (d.retirements ≡ present rs)
      × (d.retirements_error ≡ none)
      × (d.retirements_loading ≡ false))
    ⊎ ((e : Rejection) × (promise_all (map a.get_retirement ids) ≡ rejected e)
        × (d.retirements ≡ [])
        × (d.retirements_error ≡ some (message_of "Failed to load retirements." e))
        × (d.retirements_loading ≡ false))

answered_retirements-RetirementsShown :
    (a : DashboardAnswers) (ids : List String) (d : Dashboard)
    → d.retirements ≡ []
    → d.retirements_error ≡ none
    → RetirementsShown a ids (answered_retirements a ids d)
unfolding RetirementsShown answered_retirements end_load_retirements
answered_retirements-RetirementsShown a ids d empty fine =
    elim (Outcome-cases (promise_all (map a.get_retirement ids))) [
      | inl (rs, e) ↦ rw e (inl (rs, refl, refl, fine, refl))
      | inr (x, e) ↦ rw e (inr (x, refl, empty, refl, refl))
    ]

visit-asked :
    (a : DashboardAnswers) (key : String) (store : CreditStore)
    → let (begun, ids) = on_init (some key) (new_dashboard store) in
      (ids ≡ asked store.credits)
      × RetirementsShown a ids (answered_retirements a ids (answered_credits a key begun))
unfolding on_init begin_load_retirements retired_credits begin_load answered_credits
visit-asked a key store =
    let (begun, ids) = on_init (some key) (new_dashboard store) in
    (refl, answered_retirements-RetirementsShown a ids (answered_credits a key begun) refl refl)

connect_wallet-asked :
    (a : DashboardAnswers) (key : String) (ids : List String) (cs : List CreditMetadata)
    (store : CreditStore)
    → a.list_credits_by_project key ≡ fulfilled ids
    → promise_all (map a.get_credit ids) ≡ fulfilled cs
    → RetirementsShown a (asked cs) (connect_wallet a (fulfilled key) (new_dashboard store))
unfolding connect_wallet begin_load_retirements answered_credits end_load_by_project retired_credits
connect_wallet-asked a key ids cs store listed came =
    rw (listed, came, end_load_by_project)
      (answered_retirements-RetirementsShown a (asked cs) _ refl refl)

answered_credits-loaded :
    (a : DashboardAnswers) (key : String) (ids : List String) (cs : List CreditMetadata)
    (d : Dashboard)
    → a.list_credits_by_project key ≡ fulfilled ids
    → promise_all (map a.get_credit ids) ≡ fulfilled cs
    → (answered_credits a key d).store.credits ≡ cs
unfolding answered_credits end_load_by_project
answered_credits-loaded a key ids cs d listed came = rw (listed, came, end_load_by_project) refl

-- Where the credits for a wallet can be loaded, whatever credits the store holds from before: the page that
-- is visited with the wallet asks for the retirements of the retired credits among those from before, by
-- the ids of the credits, and not of those that are loaded; in whichever order the answers come it ends
-- the same, with the loaded credits, and with all the retirements asked for, or none and an error if one
-- request was rejected. When the wallet is connected on the page instead, the retirements of the loaded
-- credits that are retired are asked for, and shown in the same way.
pub on_init-connect_wallet :
    (a : DashboardAnswers) (key : String) (listed_ids : List String) (cs : List CreditMetadata)
    (store : CreditStore)
    → a.list_credits_by_project key ≡ fulfilled listed_ids
    → promise_all (map a.get_credit listed_ids) ≡ fulfilled cs
    → (let (begun, ids) = on_init (some key) (new_dashboard store) in
        let end = answered_retirements a ids (answered_credits a key begun) in
        (ids ≡ asked store.credits)
        × (end ≡ answered_credits a key (answered_retirements a ids begun))
        × (end.store.credits ≡ cs)
        × RetirementsShown a ids end)
      × RetirementsShown a (asked cs) (connect_wallet a (fulfilled key) (new_dashboard store))
on_init-connect_wallet a key listed_ids cs store listed came =
    let (begun, ids) = on_init (some key) (new_dashboard store) in
    let same = answers_comm a key ids begun in
    let (asks, shows) = visit-asked a key store in
    let loaded =
      answered_credits-loaded a key listed_ids cs (answered_retirements a ids begun) listed came in
    (
      (asks, same, ap (λ d. d.store.credits) same ∙ loaded, shows),
      connect_wallet-asked a key listed_ids cs store listed came,
    )
