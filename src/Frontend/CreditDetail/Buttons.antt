-- ===== src/Frontend/CreditDetail/Buttons.antt =====
-- To whom the page of a credit offers to retire and to sell it, and the page against the API.
use carbonchain.Prelude.{
  String, ◌≡◌, refl, ap, ◌⊎◌, inl, inr, true, Option, none, some, List, [], ◌∷◌, ◌===◌, ===_iff,
  Bool-cases, is_empty, and-eq-true, ◌&&◌, not, sym,
}
use carbonchain.Prelude.JsMap.{values, All-values-get}
use carbonchain.Shared.{
  CreditStatus, pending, active, retired, flagged, CreditMetadata, status_text,
}
use carbonchain.Cache.{cache_get}
use carbonchain.Credits.Repository.{CreditEntity, find_by_id}
use carbonchain.Credits.Service.{
  Platform, State, credit_key, entity_to_metadata, get_credit, Call, run,
}
use carbonchain.Credits.Service.Index.{get_credit-indexed, run-AllPending, IsPending}
use carbonchain.Frontend.{fulfilled, over_http}
use carbonchain.Frontend.CreditDetail.{
  new_page, end_get_credit, details, shown, retire, sell, enabled_buttons,
}

active_text : (s : CreditStatus) → (status_text s === "Active") ≡ true → s ≡ active
active_text pending h = cc
active_text active h = refl
active_text retired h = cc
active_text flagged h = cc

-- The buttons can be clicked only by the issuer, and while the credit is active.
buttons-owner :
    (c : CreditMetadata) (key : Option String)
    → (enabled_buttons key (end_get_credit (fulfilled c) new_page) ≡ [])
      ⊎ ((enabled_buttons key (end_get_credit (fulfilled c) new_page) ≡ retire c ∷ sell c ∷ [])
          × (key ≡ some c.issuer)
          × (c.status ≡ active))
unfolding enabled_buttons end_get_credit
buttons-owner c none = inl refl
buttons-owner c (some k) =
    elim (Bool-cases ((not (is_empty k) && c.issuer === k) && status_text c.status === "Active")) [
      | inr off ↦ inl (rw off refl)
      | inl on ↦
          let (owner, is_active) = and-eq-true _ _ on in
          let (_, same) = and-eq-true _ _ owner in
          inr (
            rw on refl,
            ap some (sym ((===_iff c.issuer k).0 same)),
            active_text c.status is_active,
          )
    ]

buttons-pending :
    (c : CreditMetadata) (key : Option String)
    → c.status ≡ pending
    → enabled_buttons key (end_get_credit (fulfilled c) new_page) ≡ []
buttons-pending c key waiting = elim (buttons-owner c key) [
  | inl off ↦ off
  | inr (_, _, is_active) ↦ cc
]

-- After any calls of the credit service from an empty index, the page of every credit that the API reads
-- from the index, which is one that Redis does not hold, shows it; and none of its buttons can be clicked,
-- whatever wallet is connected, that of the issuer too.
pub enabled_buttons-get_credit :
    (p : Platform) (cs : List (Call p)) (s : State p) (id : String) (e : CreditEntity)
    (key : Option String)
    → values s.repo ≡ []
    → find_by_id id (run p cs s).repo ≡ some e
    → (cache_get p.redis p.credit_json p.cache (credit_key id) (run p cs s).cached).0 ≡ none
    → (shown (end_get_credit (over_http (get_credit p id (run p cs s)).0) new_page)
        ≡ details (entity_to_metadata e))
      × (enabled_buttons key (end_get_credit (over_http (get_credit p id (run p cs s)).0) new_page)
          ≡ [])
unfolding shown end_get_credit entity_to_metadata find_by_id
enabled_buttons-get_credit p cs s id e key none_yet found miss =
    let read = (get_credit-indexed p id (run p cs s) miss found).0 in
    let waiting =
      All-values-get IsPending id (run p cs s).repo (run-AllPending p cs s (rw none_yet tt))
        found in
    (rw read refl, rw read (buttons-pending (entity_to_metadata e) key waiting))
