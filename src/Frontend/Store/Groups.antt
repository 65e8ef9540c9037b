-- ===== src/Frontend/Store/Groups.antt =====
-- `creditsByProject` finds for every project the credits of that project.
use carbonchain.Prelude.{
  String, ◌≡◌, refl, sym, ap, inl, inr, Option, none, some, List, [], ◌∷◌, ◌++◌, arith, ◌===◌,
  ===_iff, filter, Option-cases,
}
use carbonchain.Prelude.JsMap.{JsMap, get, set, get-set}
use carbonchain.Shared.{CreditMetadata}
use carbonchain.Frontend.Store.{CreditStore, or_empty_list, group, credits_by_project}

abbrev pub of_project : String → List CreditMetadata → List CreditMetadata
of_project p cs = filter (λ c. c.project_id === p) cs

abbrev pub none_if_empty : List CreditMetadata → Option (List CreditMetadata)
none_if_empty [] = none
none_if_empty (c ∷ cs) = some (c ∷ cs)

append_assoc :
    (xs : List CreditMetadata) (y : CreditMetadata) (ys : List CreditMetadata)
    → (xs ++ y ∷ []) ++ ys ≡ xs ++ y ∷ ys
append_assoc [] y ys = refl
append_assoc (x ∷ xs) y ys = ap (◌∷◌ x) (append_assoc xs y ys)

append_nil : (xs : List CreditMetadata) → xs ++ [] ≡ xs
append_nil [] = refl
append_nil (x ∷ xs) = ap (◌∷◌ x) (append_nil xs)

abbrev joined : Option (List CreditMetadata) → List CreditMetadata → Option (List CreditMetadata)
joined none xs = none_if_empty xs
joined (some ys) xs = some (ys ++ xs)

get-group :
    (p : String) (cs : List CreditMetadata) (m : JsMap (List CreditMetadata))
    → get p (group cs m) ≡ joined (get p m) (of_project p cs)
unfolding group
get-group p [] m = elim (Option-cases (get p m)) [
  | inl e ↦ rw e refl
  | inr (ys, e) ↦ rw e (ap some (sym (append_nil ys)))
]
get-group p (c ∷ cs) m =
    let list = or_empty_list (get c.project_id m) ++ c ∷ [] in
    elim (Option-cases (get p m)) [
      | inl e ↦ ground (
        arith,
        get-group p cs (set c.project_id list m),
        get-set c.project_id p list m,
        ===_iff c.project_id p,
      )
      | inr (ys, e) ↦ ground (
        arith,
        get-group p cs (set c.project_id list m),
        get-set c.project_id p list m,
        ===_iff c.project_id p,
        append_assoc ys c (of_project p cs),
      )
    ]

-- `creditsByProject` has under every project id the credits of that project in the order of the store,
-- and no entry for a project without credits.
pub credits_by_project_lem :
    (s : CreditStore) (p : String)
    → get p (credits_by_project s) ≡ none_if_empty (of_project p s.credits)
unfolding credits_by_project
credits_by_project_lem s p = get-group p s.credits []
