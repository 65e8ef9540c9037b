-- ===== src/Frontend/Dashboard/Tests.antt =====
-- A wallet with an active and a retired credit; there is a retirement under the id of the latter.
use carbonchain.Prelude.{String, ◌≡◌, refl, some, [], ◌∷◌, ◌===◌, if◌then◌else◌}
use carbonchain.Shared.{CreditMetadata, RetirementRecord, active, retired}
use carbonchain.Frontend.{fulfilled, rejected, other}
use carbonchain.Frontend.Store.{
  CreditStore, empty_store, begin_load, end_load_by_project, retired_credits, select,
}
use carbonchain.Frontend.Dashboard.{
  new_dashboard, DashboardAnswers, begin_load_retirements, present, end_load_retirements,
  answered_retirements, answered_credits, on_init, connect_wallet, select_credit,
}
use carbonchain.Frontend.Dashboard.Visits.{RetirementsShown, asked, on_init-connect_wallet}

abbrev credit : String → CreditMetadata
credit id = record {
  id = id;
  project_id = "GBUYER";
  issuer = "G";
  vintage_year = 2020;
  methodology = "VCS";
  geography = "KE";
  tonnes = "5";
  ipfs_hash = "Qm";
  status = if id === "r" then retired else active;
  issued_at = 7;
}

abbrev retirement : RetirementRecord
retirement = record {
  id = "r";
  credit_id = "r";
  buyer = "GBUYER";
  tonnes_retired = "5";
  reason = "offset";
  retired_at = 9;
  tx_hash = "";
}

abbrev answers : DashboardAnswers
answers = record {
  list_credits_by_project = λ key. fulfilled ("a" ∷ "r" ∷ []);
  get_credit = λ id. fulfilled (credit id);
  get_retirement = λ id. if id === "r" then fulfilled (some retirement) else rejected other;
}

-- The store at a later visit.
abbrev later : CreditStore
later = record empty_store { credits = credit "r" ∷ [] }

visits : Unit {0}
unfolding connect_wallet begin_load_retirements answered_credits end_load_by_project retired_credits
    answered_retirements end_load_retirements present begin_load on_init select_credit select
visits = tt

-- A first visit asks for no retirement.
first_visit : (on_init (some "GBUYER") (new_dashboard empty_store)).1 ≡ []
unfolding visits
first_visit = refl

connected :
    (connect_wallet answers (fulfilled "GBUYER") (new_dashboard empty_store)).retirements
    ≡ retirement ∷ []
unfolding visits
connected = refl

-- A second click closes the panel of a credit.
clicked_twice :
    select_credit "a" (select_credit "a" (new_dashboard empty_store)) ≡ new_dashboard empty_store
unfolding visits
clicked_twice = refl

on_init-connect_wallet_example :
    (let (begun, ids) = on_init (some "GBUYER") (new_dashboard later) in
      let end = answered_retirements answers ids (answered_credits answers "GBUYER" begun) in
      (ids ≡ asked later.credits)
      × (end ≡ answered_credits answers "GBUYER" (answered_retirements answers ids begun))
      × (end.store.credits ≡ credit "a" ∷ credit "r" ∷ [])
      × RetirementsShown answers ids end)
    × RetirementsShown answers
        (asked (credit "a" ∷ credit "r" ∷ []))
        (connect_wallet answers (fulfilled "GBUYER") (new_dashboard later))
on_init-connect_wallet_example =
    on_init-connect_wallet answers "GBUYER" ("a" ∷ "r" ∷ []) (credit "a" ∷ credit "r" ∷ []) later
      refl refl
