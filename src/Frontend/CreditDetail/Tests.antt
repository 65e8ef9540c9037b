-- ===== src/Frontend/CreditDetail/Tests.antt =====
-- The page of a credit that was issued to an empty index, and of one that is active.
use carbonchain.Prelude.{◌≡◌, refl, some, [], ◌∷◌}
use carbonchain.Prelude.BigInt.{big_int}
use carbonchain.Shared.{CreditMetadata, active}
use carbonchain.Keypair.{get_admin_keypair}
use carbonchain.Cache.{cache_get}
use carbonchain.Credits.Listing.{parse_big_int}
use carbonchain.Credits.Repository.{CreditEntity, find_by_id, save}
use carbonchain.Credits.Service.{
  State, entity_to_metadata, issued_entity, issue_credit, get_credit, issue, step, run,
}
use carbonchain.Credits.Service.Sample.{dto, issued, p, start}
use carbonchain.Frontend.{fulfilled, over_http}
use carbonchain.Frontend.CreditDetail.{
  new_page, end_get_credit, is_owner, details, shown, retire, sell, enabled_buttons,
}
use carbonchain.Frontend.CreditDetail.Buttons.{enabled_buttons-get_credit}

abbrev for_sale : CreditMetadata
for_sale = record issued { status = active }

of_owner :
    enabled_buttons (some "GISSUER") (end_get_credit (fulfilled for_sale) new_page)
    ≡ retire for_sale ∷ sell for_sale ∷ []
unfolding enabled_buttons is_owner shown end_get_credit
of_owner = refl

abbrev entity : CreditEntity
entity = issued_entity dto "0a" 9

abbrev t : State p
t = run p (issue dto 9 ∷ []) start

enabled_buttons-get_credit_example :
    (shown (end_get_credit (over_http (get_credit p "0a" t).0) new_page)
      ≡ details (entity_to_metadata entity))
    × (enabled_buttons
          (some "GISSUER")
          (end_get_credit (over_http (get_credit p "0a" t).0) new_page)
        ≡ [])
unfolding run step issue_credit get_admin_keypair parse_big_int big_int save find_by_id cache_get
    issued_entity
enabled_buttons-get_credit_example =
    enabled_buttons-get_credit p (issue dto 9 ∷ []) start "0a" entity (some "GISSUER") refl refl
      refl
