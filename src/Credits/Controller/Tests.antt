-- ===== src/Credits/Controller/Tests.antt =====
-- Queries, and a listing with one credit in the index.
use carbonchain.Prelude.{
  ◌≡◌, ◌↔◌, inl, inr, refl, true, none, some, [], ◌∷◌, arith, filter, length, take, drop,
}
use carbonchain.Prelude.Int.{pos, negsuc}
use carbonchain.Prelude.BigInt.{big_int}
use carbonchain.Prelude.Decimal.{decimal}
use carbonchain.Prelude.Decimal.ParseInt.{parse_int, digits_prefix, unsigned}
use carbonchain.Keypair.{get_admin_keypair}
use carbonchain.Cache.{cache_get}
use carbonchain.Paging.{paginate}
use carbonchain.Shared.{CreditMetadata}
use carbonchain.Credits.Repository.{save, find_all}
use carbonchain.Credits.Listing.{with_default_status, parse_big_int, apply_filters}
use carbonchain.Credits.Listing.Matching.{Matches, wanted}
use carbonchain.Credits.Service.{
  State, entity_to_metadata, issued_entity, issue_credit, list_credits,
}
use carbonchain.Credits.Service.Reads.{indexed}
use carbonchain.Credits.Service.Sample.{dto, issued, p, start}
use carbonchain.Credits.Controller.{ListQuery, with_page, get_credits}
use carbonchain.Credits.Controller.Query.{get_credits-page}

-- What follows the digits is dropped; a text without leading digits is `NaN`.
parse_int_tests :
    (parse_int " 12px" ≡ some (pos 12))
    × (parse_int "-3" ≡ some (negsuc 2))
    × (parse_int "px" ≡ none)
unfolding parse_int digits_prefix unsigned
parse_int_tests = (refl, refl, refl)

abbrev query : ListQuery
query = record {
  methodology = none;
  geography = none;
  vintage_year = some "2024";
  status = some "Pending";
  min_tonnes = none;
  max_tonnes = none;
  page = none;
  limit = some "5";
}

after_issue : State p
after_issue = (issue_credit p dto 1700000000 start).1

listing : Unit {0}
unfolding after_issue issue_credit get_admin_keypair parse_big_int big_int save find_all
    list_credits cache_get with_default_status apply_filters paginate entity_to_metadata
    issued_entity parse_int digits_prefix unsigned decimal
listing = tt

get_credits-page_example :
    (let f = with_default_status (with_page query (pos 1) (pos 5)) in
      let found = filter (wanted p.to_lower_case f) (indexed p after_issue) in
      (get_credits p query ≡ some (list_credits p (with_page query (pos 1) (pos 5))))
      × (issued ∷ [] ≡ take 5 (drop 0 found))
      × (1 ≡ length found)
      × ((c : CreditMetadata) → (wanted p.to_lower_case f c ≡ true) ↔ Matches p.to_lower_case f c))
unfolding listing
get_credits-page_example =
    get_credits-page p query 0 5 after_issue
      (record { items = issued ∷ []; total = 1; page = pos 1; limit = pos 5 }) (inr (refl, refl))
      (inl refl) (omega arith) refl refl
