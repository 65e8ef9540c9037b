-- ===== src/Validation/Documents.antt =====
-- POST /projects with the pipe: which documents a project gets.
use carbonchain.Prelude.{
  String, ◌+++◌, ◌≡◌, refl, ap, ◌∙◌, ◌⊎◌, inl, inr, true, false, Option, none, some, List, [], ◌∷◌,
  All, all, is_empty, arith, Bool-cases, Option-cases, and-eq-true,
}
use carbonchain.Prelude.JsMap.{get, set}
use carbonchain.Prelude.Results.{ok, err, bad_request, lift-err, lift-ok}
use carbonchain.Projects.{Pinning, Config, profile, State}
use carbonchain.Projects.Catalog.{create_project-no_documents}
use carbonchain.Validation.{
  JsonValue, text, Body, Property, is_string, is_not_empty, ClassValidator, ClassValidatorLaws,
  is_whitelisted, accepts_all, is_valid, create_project_dto,
}
use carbonchain.Validation.Bodies.{project_request, post_project}
use carbonchain.Validation.Refusals.{all-get}

-- A field with a text that is not empty.
abbrev pub HasText : {D : Type 0} → Option (JsonValue D) → Type 0
HasText f = (s : String) × (f ≡ some (text s)) × (is_empty s ≡ false)

abbrev pub project_fields : List String
project_fields =
    "name" ∷ "developer" ∷ "description" ∷ "location" ∷ "methodology" ∷ "documents_cid" ∷ []

module _ {D : Type 0} (v : ClassValidator D) (laws : ClassValidatorLaws v) where
  pub required_text-HasText :
      (f : Option (JsonValue D))
      → accepts_all v f (is_string ∷ is_not_empty ∷ []) ≡ true
      → HasText f
  required_text-HasText f h =
      let (s, e) = laws.is_string_text f (ground arith) in
      (s, e, ground (arith, laws.is_not_empty_text s, ap (v.accepts is_not_empty) e))

  accepted-fields :
      (b : Body D)
      → all (λ (p : Property). accepts_all v (get p.name b) p.decorators) create_project_dto ≡ true
      → All (λ n. HasText (get n b)) project_fields
  unfolding create_project_dto
  accepted-fields b h =
      let (h1, r1) = and-eq-true _ _ h in
      let (h2, r2) = and-eq-true _ _ r1 in
      let (h3, r3) = and-eq-true _ _ r2 in
      let (h4, r4) = and-eq-true _ _ r3 in
      let (h5, r5) = and-eq-true _ _ r4 in
      let (h6, _) = and-eq-true _ _ r5 in
      (
        required_text-HasText _ h1,
        (
          required_text-HasText _ h2,
          (
            required_text-HasText _ h3,
            (
              required_text-HasText _ h4,
              (required_text-HasText _ h5, (required_text-HasText _ h6, tt)),
            ),
          ),
        ),
      )

  no_documents :
      (b : Body D)
      → all (λ f. is_whitelisted create_project_dto f.0) b ≡ true
      → get "documents" b ≡ none
  unfolding create_project_dto
  no_documents b known = elim (Option-cases (get "documents" b)) [
    | inl absent ↦ absent
    | inr (x, sent) ↦
        let k = all-get (is_whitelisted create_project_dto) "documents" b sent known in cc
  ]

  -- A body sent to POST /projects is refused as a bad request, and no project is created; or it has the
  -- six texts that the class asks for, `documents_cid` among them, and no `documents`. The project that is
  -- then created is stored with an empty `documents_cid`, and nothing is pinned.
  pub post_project-documents_cid :
      (pinning : Pinning (JsonValue D)) (config : Config) (b : Body D) (s : State pinning config)
      → ((m : String) × (post_project v pinning config b s ≡ (err (bad_request m), s)))
        ⊎ (All (λ n. HasText (get n b)) project_fields
            × (get "documents" b ≡ none)
            × (let (r, o) = pinning.random s.outside in
                let project = profile (project_request b) ("proj_" +++ r) "" in
                post_project v pinning config b s ≡ (
                  ok project,
                  record s { projects = set ("proj_" +++ r) project s.projects; outside = o },
                )))
  unfolding post_project
  post_project-documents_cid pinning config b s =
      elim (Bool-cases (is_valid v create_project_dto b)) [
        | inr invalid ↦
            let (m, e) = laws.invalid_refused create_project_dto b invalid in
            inl (m, lift-err _ _ s e)
        | inl valid ↦
            let (known, accepted) = and-eq-true _ _ valid in
            let absent = no_documents b known in
            inr (
              accepted-fields b accepted,
              absent,
              lift-ok _ _ s (laws.valid_passes create_project_dto b valid)
                  ∙ create_project-no_documents pinning config (project_request b) s
                      (rw absent refl),
            )
      ]
