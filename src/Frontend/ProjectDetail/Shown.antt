-- ===== src/Frontend/ProjectDetail/Shown.antt =====
-- What the page of a project shows, and the page of a project that was created.
use carbonchain.Prelude.{String, false, ◌≡◌, ◌⊎◌, none, some, List, [], ◌∷◌, ◌++◌, map}
use carbonchain.Shared.{ProjectProfile, CreditMetadata}
use carbonchain.Projects.{Pinning, Config, State, get_project}
use carbonchain.Frontend.{Outcome, fulfilled, rejected, Rejection, over_http}
use carbonchain.Frontend.ProjectDetail.{ProjectDetail, ProjectAnswers}

-- One of the requests for these credits was rejected.
pub record OneRejected (get_credit : String → Outcome CreditMetadata) (ids : List String)
    : Type 0 where
  pub before : List String
  pub credit_id : String
  pub after : List String
  pub rejection : Rejection
  pub splits : ids ≡ before ++ (credit_id ∷ after)
  pub is_rejected : get_credit credit_id ≡ rejected rejection

-- The answers are these credits, in order.
pub AllAnswered : (String → Outcome CreditMetadata) → List String → List CreditMetadata → Type 0
AllAnswered get_credit ids cs = map get_credit ids ≡ map fulfilled cs

-- What can be said of the credits of the page: all that were listed, or none for a reason.
pub CreditsShown : ProjectAnswers → String → List CreditMetadata → Type 0
CreditsShown a id shown =
    ((ids : List String) × (a.list_credits_by_project id ≡ fulfilled ids)
      × AllAnswered a.get_credit ids shown)
    ⊎ ((shown ≡ [])
        × (((e : Rejection) × (a.list_credits_by_project id ≡ rejected e))
            ⊎ ((ids : List String) × (a.list_credits_by_project id ≡ fulfilled ids)
                × OneRejected a.get_credit ids)))

-- The API's answer to GET /projects/:id, in a state of the project service.
abbrev pub answers_in :
    {Document : Type 0} (pinning : Pinning Document) (config : Config)
    → State pinning config
    → (String → Outcome (List String))
    → (String → Outcome CreditMetadata)
    → ProjectAnswers
answers_in pinning config s list get_credit = record {
  get_project = λ id. over_http (get_project pinning config id s);
  list_credits_by_project = list;
  get_credit = get_credit;
}

-- The page shows a project without an error, and its loads are over.
pub record PageOf (a : ProjectAnswers) (project : ProjectProfile) (p : ProjectDetail) : Type 0 where
  pub is_shown : p.project ≡ some project
  pub no_error : p.error ≡ none
  pub is_loaded : p.loading ≡ false
  pub credits_loaded : p.credits_loading ≡ false
  pub credits_shown : CreditsShown a project.id p.credits
