-- ===== src/Projects/Catalog.antt =====
-- What a created project looks like afterwards.
use carbonchain.Prelude.{String, ◌≡◌, ◌∙◌, ◌≢◌, refl, ◌⊎◌, inl, inr, Option, none, some}
use carbonchain.Prelude.JsMap.{get, get-set_self, get-set_ne}
use carbonchain.Prelude.Results.{ok, err, Exception, Result-cases}
use carbonchain.Projects.{
  Pinning, Config, ProjectRequest, profile, State, upload_to_ipfs, new_project_id, documents_cid,
  store_project, create_project, get_project,
}

module _ {Document : Type 0} (pinning : Pinning Document) (config : Config) where
  upload-projects :
      (d : Option Document) (s : State pinning config)
      → (documents_cid pinning config d s).1.projects ≡ s.projects
  unfolding documents_cid upload_to_ipfs
  upload-projects none s = refl
  upload-projects (some d) s = refl

  created :
      (r : ProjectRequest Document) (s : State pinning config) (cid : String)
      → (documents_cid pinning config r.documents (new_project_id pinning config s).1).0 ≡ ok cid
      → create_project pinning config r s
        ≡ store_project pinning config
            (profile r (new_project_id pinning config s).0 cid)
            (documents_cid pinning config r.documents (new_project_id pinning config s).1).1
  unfolding create_project
  created r s cid f = rw f refl

  not_created :
      (r : ProjectRequest Document) (s : State pinning config) (e : Exception)
      → (documents_cid pinning config r.documents (new_project_id pinning config s).1).0 ≡ err e
      → create_project pinning config r s
        ≡ (err e, (documents_cid pinning config r.documents (new_project_id pinning config s).1).1)
  unfolding create_project
  not_created r s e f = rw f refl

  pub create_project-no_documents :
      (r : ProjectRequest Document) (s : State pinning config)
      → r.documents ≡ none
      → create_project pinning config r s ≡ (
          let (id, s1) = new_project_id pinning config s in
          store_project pinning config (profile r id "") s1)
  unfolding create_project documents_cid
  create_project-no_documents r s absent = rw absent refl

  -- Creating a project either fails with the error of the upload and leaves the projects as they were,
  -- or returns the project with the data of the request, which is then found under its id, while the
  -- projects under other ids stay.
  pub create_project_lem :
      (r : ProjectRequest Document) (s : State pinning config)
      → ((e : Exception) × ((create_project pinning config r s).0 ≡ err e)
          × ((create_project pinning config r s).1.projects ≡ s.projects))
        ⊎ ((id : String) × (cid : String) × ((create_project pinning config r s).0
              ≡ ok (profile r id cid))
            × (get_project pinning config id (create_project pinning config r s).1
                ≡ ok (profile r id cid))
            × ((j : String)
                → id ≢ j
                → get j (create_project pinning config r s).1.projects ≡ get j s.projects))
  unfolding get_project
  create_project_lem r s =
      let (id, s1) = new_project_id pinning config s in
      let same = upload-projects r.documents s1 in
      elim (Result-cases (documents_cid pinning config r.documents s1).0) [
        | inr (e, f) ↦ let q = not_created r s e f in inl (e, rw q refl, rw q same)
        | inl (cid, f) ↦
            let e = created r s cid f in
            inr (
              id,
              cid,
              rw e refl,
              rw (e, get-set_self id (profile r id cid)) refl,
              rw e (λ j h. get-set_ne id j (profile r id cid) _ h ∙ rw same refl),
            )
      ]
