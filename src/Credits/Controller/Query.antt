-- ===== src/Credits/Controller/Query.antt =====
-- The listing over HTTP, from the texts of the query to the page.
use carbonchain.Prelude.{
  ℕ, suc, ◌*◌, ◌≤◌, String, ◌≡◌, refl, ap, ◌∙◌, ◌↔◌, ◌⊎◌, inl, inr, true, Option, none, some,
  length, take, drop, filter,
}
use carbonchain.Prelude.Int.{pos}
use carbonchain.Prelude.Decimal.{decimal}
use carbonchain.Prelude.Decimal.ParseInt.{parse_int, parse_int-decimal}
use carbonchain.Prelude.JsMap.{values}
use carbonchain.Prelude.Results.{ok}
use carbonchain.Paging.{PageResult, paginate}
use carbonchain.Paging.Pages.{paginate-items}
use carbonchain.Shared.{CreditMetadata}
use carbonchain.Credits.Listing.{with_default_status}
use carbonchain.Credits.Listing.Matching.{Matches, wanted}
use carbonchain.Credits.Service.{Platform, State, list_credits}
use carbonchain.Credits.Service.Reads.{NotCached, indexed, list_credits-page}
use carbonchain.Credits.Controller.{ListQuery, or_default, with_page, list_filter, get_credits}

-- The parameter is the number in decimal digits, or is missing and the number is the default.
abbrev pub Asks : ℕ → Option String → ℕ → Type 0
Asks default o n = (o ≡ some (decimal n)) ⊎ ((o ≡ none) × (n ≡ default))

asked_number :
    (default : ℕ) (o : Option String) (n : ℕ)
    → Asks default o n
    → parse_int (or_default o (decimal default)) ≡ some (pos n)
asked_number default o n (inl e) = rw e (parse_int-decimal n)
asked_number default o n (inr (e, same)) = rw (e, same) (parse_int-decimal default)

list_filter-Asks :
    (q : ListQuery) (page limit : ℕ)
    → Asks 1 q.page page
    → Asks 10 q.limit limit
    → list_filter q ≡ some (with_page q (pos page) (pos limit))
unfolding list_filter decimal
list_filter-Asks q page limit a b =
    rw (asked_number 1 q.page page a, asked_number 10 q.limit limit b) refl

-- `GET /credits` with a page `n + 1` and a limit, given in decimal digits or by their defaults 1 and 10: the
-- answer, if it is not cached and no filter throws, over an index of at most a million credits, has the
-- items from position `n * limit` on, as many as the limit allows, of the indexed credits that match the
-- query, in the order of the index, and the number of all that match; without a status the active ones
-- match.
pub get_credits-page :
    (p : Platform) (q : ListQuery) (n limit : ℕ) (s : State p) (page : PageResult CreditMetadata)
    → Asks 1 q.page (suc n)
    → Asks 10 q.limit limit
    → length (values s.repo) ≤ 1000000
    → NotCached p (with_page q (pos (suc n)) (pos limit)) s
    → (list_credits p (with_page q (pos (suc n)) (pos limit)) s).0 ≡ ok page
    → (let f = with_default_status (with_page q (pos (suc n)) (pos limit)) in
        let found = filter (wanted p.to_lower_case f) (indexed p s) in
        (get_credits p q ≡ some (list_credits p (with_page q (pos (suc n)) (pos limit))))
        × (page.items ≡ take limit (drop (n * limit) found))
        × (page.total ≡ length found)
        × ((c : CreditMetadata)
            → (wanted p.to_lower_case f c ≡ true) ↔ Matches p.to_lower_case f c))
unfolding get_credits paginate
get_credits-page p q n limit s page a b small miss h =
    let f = with_page q (pos (suc n)) (pos limit) in
    let (listed, matching, _) = list_credits-page p f s page small miss h in
    (
      rw (list_filter-Asks q (suc n) limit a b) refl,
      ap (λ r. r.items) listed ∙ paginate-items _ n limit,
      ap (λ r. r.total) listed,
      matching,
    )
