-- ===== src/Projects.antt =====
-- api/src/projects/projects.service.ts: the projects in memory and the upload of their documents. The
-- pinning service, `Math.random` and JSON documents are parameters.
pub mod Catalog
mod Tests
pub mod Sample
use carbonchain.Prelude.{String, ◌+++◌, Option, none, some, List}
use carbonchain.Prelude.JsMap.{JsMap, get, set, values}
use carbonchain.Prelude.Results.{Result, ok, err, not_found, Io, ◌>>=◌, pure, or_throw}
use carbonchain.Shared.{ProjectProfile}

pub record Pinning (Document : Type 0) : Type 1 where
  pub State : Type 0
  pub random : State → String × State
  pub pin : String → String → String → Document → State → Result String × State

pub record Config : Type 0 where
  pub api_key : Option String
  pub secret_key : Option String
  pub api_url : Option String

abbrev pub or_default : Option String → String → String
or_default none d = d
or_default (some s) d = s

pub record ProjectRequest (Document : Type 0) : Type 0 where
  pub name : String
  pub developer : String
  pub description : String
  pub location : String
  pub methodology : String
  pub documents : Option Document

-- The stored project, with the id and the address of its documents.
abbrev pub profile :
    {Document : Type 0} → ProjectRequest Document → String → String → ProjectProfile
profile r id cid = record {
  id = id;
  name = r.name;
  developer = r.developer;
  description = r.description;
  location = r.location;
  methodology = r.methodology;
  documents_cid = cid;
}

module _ {Document : Type 0} (pinning : Pinning Document) (config : Config) where
  pub record State : Type 0 where
    pub projects : JsMap ProjectProfile
    pub outside : pinning.State

  pub upload_to_ipfs : Document → Io State String
  upload_to_ipfs document s =
      let url = or_default config.api_url "https://api.pinata.cloud" +++ "/pinning/pinJSONToIPFS" in
      let (answer, o) =
        pinning.pin url (or_default config.api_key "") (or_default config.secret_key "") document
          s.outside in
      (answer, record s { outside = o })

  abbrev pub new_project_id : State → String × State
  new_project_id s =
      let (r, o) = pinning.random s.outside in ("proj_" +++ r, record s { outside = o })

  pub documents_cid : Option Document → Io State String
  documents_cid none = pure ""
  documents_cid (some d) = upload_to_ipfs d

  abbrev pub store_project : ProjectProfile → Io State ProjectProfile
  store_project p s = (ok p, record s { projects = set p.id p s.projects })

  pub create_project : ProjectRequest Document → Io State ProjectProfile
  create_project r s =
      let (id, s1) = new_project_id s in
      (documents_cid r.documents >>= λ cid. store_project (profile r id cid)) s1

  pub get_project : String → State → Result ProjectProfile
  get_project id s =
      or_throw (get id s.projects) (not_found ("Project with ID " +++ (id +++ " not found")))

  pub list_projects : State → List ProjectProfile
  list_projects s = values s.projects
