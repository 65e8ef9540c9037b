-- ===== src/Frontend/Store/Loads.antt =====
-- Loads that overlap: the store together with the calls whose answers are still outstanding.
use carbonchain.Prelude.{String, ◌≡◌, refl, false, Option, List, [], ◌∷◌, ◌++◌, arith}
use carbonchain.Shared.{CreditMetadata}
use carbonchain.Frontend.{Outcome, fulfilled, rejected}
use carbonchain.Frontend.Store.{
  CreditStore, empty_store, is_loading, begin_load, end_load_by_project, end_load_one, select,
  reset,
}

pub data Load : Type 0 where
  one : String → Load
  by_project : String → Load

pub record World : Type 0 where
  pub store : CreditStore
  pub outstanding : List Load

abbrev pub start : World
start = record { store = empty_store; outstanding = [] }

-- A call starts a load; the two answers of a project's load come as one, since nothing is written between
-- them. The answers to any outstanding load may be the next to arrive.
pub data Step (w v : World) : Type 0 where
  begins :
      (l : Load)
      → v ≡ record { store = begin_load w.store; outstanding = l ∷ w.outstanding }
      → Step w v
  one_ends :
      (before after : List Load) (id : String) (o : Outcome CreditMetadata)
      → w.outstanding ≡ before ++ one id ∷ after
      → v ≡ record { store = end_load_one id o w.store; outstanding = before ++ after }
      → Step w v
  project_ends :
      (before after : List Load) (project_id : String) (ids : Outcome (List String))
      (answer : String → Outcome CreditMetadata)
      → w.outstanding ≡ before ++ by_project project_id ∷ after
      → v ≡ record { store = end_load_by_project ids answer w.store; outstanding = before ++ after }
      → Step w v
  selects :
      (id : Option String)
      → v ≡ record { store = select id w.store; outstanding = w.outstanding }
      → Step w v
  resets : v ≡ record { store = reset w.store; outstanding = w.outstanding } → Step w v

pub data Reach (w : World) : World → Type 0 where
  here : Reach w w
  next : {u v : World} → Reach w u → Step u v → Reach w v

-- While nothing is outstanding, the store does not show that it is loading.
abbrev pub IsQuiet : World → Type 0
IsQuiet w = w.outstanding ≡ [] → is_loading w.store ≡ false

end_load_one-is_loading :
    (id : String) (o : Outcome CreditMetadata) (s : CreditStore)
    → is_loading (end_load_one id o s) ≡ false
unfolding end_load_one is_loading
end_load_one-is_loading id (fulfilled c) s = refl
end_load_one-is_loading id (rejected e) s = refl

end_load_by_project-is_loading :
    (ids : Outcome (List String)) (answer : String → Outcome CreditMetadata) (s : CreditStore)
    → is_loading (end_load_by_project ids answer s) ≡ false
unfolding end_load_by_project is_loading
end_load_by_project-is_loading (rejected e) answer s = refl
end_load_by_project-is_loading (fulfilled ids) answer s = ground arith

Step-IsQuiet : (w v : World) → Step w v → IsQuiet w → IsQuiet v
unfolding select reset is_loading
Step-IsQuiet w v (begins l e) q = λ h. ground arith
Step-IsQuiet w v (one_ends before after id o h e) q =
    λ _. rw e (end_load_one-is_loading id o w.store)
Step-IsQuiet w v (project_ends before after p ids answer h e) q =
    λ _. rw e (end_load_by_project-is_loading ids answer w.store)
Step-IsQuiet w v (selects id e) q = λ h. ground arith
Step-IsQuiet w v (resets e) q = λ h. ground arith

Reach-IsQuiet : {w v : World} → IsQuiet w → Reach w v → IsQuiet v
Reach-IsQuiet q here = q
Reach-IsQuiet q (next r st) = Step-IsQuiet _ _ st (Reach-IsQuiet q r)

-- Answers for every load, whatever they are.
pub record Answers : Type 0 where
  pub credit : String → Outcome CreditMetadata
  pub ids : String → Outcome (List String)

end_of : Answers → Load → CreditStore → CreditStore
end_of a (one id) s = end_load_one id (a.credit id) s
end_of a (by_project p) s = end_load_by_project (a.ids p) a.credit s

-- The outstanding loads are answered one after another.
pub settle : Answers → List Load → CreditStore → CreditStore
unfolding end_of
settle a [] s = s
settle a (l ∷ ls) s = settle a ls (end_of a l s)

settled-Reach :
    (a : Answers) (ls : List Load) {w : World} (s : CreditStore)
    → Reach w (record { store = s; outstanding = ls })
    → Reach w (record { store = settle a ls s; outstanding = [] })
unfolding settle
settled-Reach a [] s r = r
settled-Reach a (one id ∷ ls) s r =
    settled-Reach a ls _ (next r (one_ends [] ls id (a.credit id) refl refl))
settled-Reach a (by_project p ∷ ls) s r =
    settled-Reach a ls _ (next r (project_ends [] ls p (a.ids p) a.credit refl refl))

-- However calls and answers of loads come between each other, a store with no load outstanding does not
-- show that it is loading; and from every state that can be reached, the answers to the outstanding
-- loads, whatever they are, lead to such a state.
pub Reach-is_loading :
    (a : Answers) {w : World}
    → Reach start w
    → (w.outstanding ≡ [] → is_loading w.store ≡ false)
      × Reach start (record { store = settle a w.outstanding w.store; outstanding = [] })
      × (is_loading (settle a w.outstanding w.store) ≡ false)
unfolding is_loading
Reach-is_loading a {w} r =
    let quiet : IsQuiet start = λ _. refl in
    let done = settled-Reach a w.outstanding w.store r in
    (Reach-IsQuiet quiet r, done, Reach-IsQuiet quiet done refl)
