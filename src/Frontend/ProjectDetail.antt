-- ===== src/Frontend/ProjectDetail.antt =====
-- frontend/src/app/projects/project-detail.component.ts: the page of a project with its credits. The
-- answers to its requests are functions. Its template only shows the fields.
pub mod Shown
mod Tests
use carbonchain.Prelude.{String, Bool, true, false, Option, none, some, List, [], ◌∷◌, map}
use carbonchain.Shared.{ProjectProfile, CreditMetadata}
use carbonchain.Frontend.{Outcome, fulfilled, rejected, message_of, promise_all}

pub record ProjectDetail : Type 0 where
  pub project : Option ProjectProfile
  pub credits : List CreditMetadata
  pub loading : Bool
  pub credits_loading : Bool
  pub error : Option String

abbrev pub new_page : ProjectDetail
new_page = record {
  project = none;
  credits = [];
  loading = true;
  credits_loading = false;
  error = none;
}

-- What the API answers to the three requests of the page.
pub record ProjectAnswers : Type 0 where
  pub get_project : String → Outcome ProjectProfile
  pub list_credits_by_project : String → Outcome (List String)
  pub get_credit : String → Outcome CreditMetadata

-- The requests for the credits. The page drops the rejection.
unfoldable pub all_credits :
    (String → Outcome CreditMetadata) → List String → Outcome (List CreditMetadata)
all_credits get_credit ids = promise_all (map get_credit ids)

unfoldable pub credits_of_ids :
    (String → Outcome CreditMetadata) → Outcome (List String) → Outcome (List CreditMetadata)
credits_of_ids get_credit (rejected e) = rejected e
credits_of_ids get_credit (fulfilled ids) = all_credits get_credit ids

-- After the `await`s of `loadCredits`: a rejection leaves the credits as they are.
unfoldable pub end_load_credits : Outcome (List CreditMetadata) → ProjectDetail → ProjectDetail
end_load_credits (fulfilled cs) p = record p { credits = cs; credits_loading = false }
end_load_credits (rejected e) p = record p { credits_loading = false }

unfoldable pub load_credits : ProjectAnswers → String → ProjectDetail → ProjectDetail
load_credits a id p =
    end_load_credits (credits_of_ids a.get_credit (a.list_credits_by_project id))
      (record p { credits_loading = true })

-- After the first `await` of `ngOnInit`, the `finally` included.
unfoldable pub end_get_project :
    ProjectAnswers → String → Outcome ProjectProfile → ProjectDetail → ProjectDetail
end_get_project a id (fulfilled project) p =
    record (load_credits a id (record p { project = some project })) { loading = false }
end_get_project a id (rejected e) p = record p {
  error = some (message_of "Failed to load project." e);
  loading = false;
}

unfoldable pub on_init : ProjectAnswers → String → ProjectDetail → ProjectDetail
on_init a id p = end_get_project a id (a.get_project id) p
