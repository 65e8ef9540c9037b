-- ===== src/Credits/Listing.antt =====
-- The filters of `listCredits` (api/src/credits/credits.service.ts). `toLowerCase` is a parameter.
-- Pages and limits are integers; one that is not a number is not modelled.
pub mod Stages
pub mod Matching
use carbonchain.Prelude.{
  ℕ, String, Bool, true, false, Option, none, some, List, [], ◌∷◌, ◌===◌, ◌==◌, if◌then◌else◌,
  is_empty, filter,
}
use carbonchain.Prelude.Int.{ℤ, pos, negsuc, leb_ℤ}
use carbonchain.Prelude.BigInt.{big_int}
use carbonchain.Prelude.Results.{Result, ok, err, error, ◌>>?◌, or_throw}
use carbonchain.Shared.{CreditStatus, active, status_text, CreditMetadata}

pub record ListCreditsFilter : Type 0 where
  pub methodology : Option String
  pub geography : Option String
  pub vintage_year : Option ℤ
  pub status : Option String
  pub min_tonnes : Option String
  pub max_tonnes : Option String
  pub page : ℤ
  pub limit : ℤ

-- `if (x)` of an optional text and of an optional number.
abbrev pub given : Option String → Option String
given none = none
given (some s) = if is_empty s then none else some s

abbrev pub given_number : Option ℤ → Option ℤ
given_number none = none
given_number (some (pos n)) = if n == 0 then none else some (pos n)
given_number (some (negsuc n)) = some (negsuc n)

-- `a === b` for a natural number and an integer.
abbrev pub is_number : ℕ → ℤ → Bool
is_number a (pos b) = a == b
is_number a (negsuc b) = false

-- `if (!filter.status) filter.status = CreditStatus.Active`
unfoldable pub with_default_status : ListCreditsFilter → ListCreditsFilter
with_default_status f = record f {
  status = elim (given f.status) [ none ↦ some (status_text active) | some s ↦ some s ];
}

-- `BigInt(text)`
unfoldable pub parse_big_int : String → Result ℤ
unfolding big_int
parse_big_int s = or_throw (big_int s) (error "Cannot convert to a BigInt")

-- `Array.prototype.filter` with a test that may throw.
pub filter_result :
    (CreditMetadata → Result Bool) → List CreditMetadata → Result (List CreditMetadata)
filter_result test [] = ok []
filter_result test (c ∷ cs) =
    test c >>? λ keep. filter_result test cs >>? λ rest. ok (if keep then c ∷ rest else rest)

-- A filter that is applied when its field is given.
abbrev pub when_given {ℓ} :
    {A : Type ℓ}
    → Option A
    → (A → List CreditMetadata → Result (List CreditMetadata))
    → List CreditMetadata
    → Result (List CreditMetadata)
when_given none f cs = ok cs
when_given (some a) f cs = f a cs

pub at_least : ℤ → CreditMetadata → Result Bool
at_least bound c = parse_big_int c.tonnes >>? λ t. ok (leb_ℤ bound t)

pub at_most : ℤ → CreditMetadata → Result Bool
at_most bound c = parse_big_int c.tonnes >>? λ t. ok (leb_ℤ t bound)

unfoldable pub by_min_tonnes : String → List CreditMetadata → Result (List CreditMetadata)
by_min_tonnes t cs = parse_big_int t >>? λ bound. filter_result (at_least bound) cs

unfoldable pub by_max_tonnes : String → List CreditMetadata → Result (List CreditMetadata)
by_max_tonnes t cs = parse_big_int t >>? λ bound. filter_result (at_most bound) cs

module _ (to_lower_case : String → String) where
  abbrev pub has_status : String → CreditMetadata → Bool
  has_status s c = status_text c.status === s

  abbrev pub has_methodology : String → CreditMetadata → Bool
  has_methodology m c = to_lower_case c.methodology === to_lower_case m

  abbrev pub has_geography : String → CreditMetadata → Bool
  has_geography g c = to_lower_case c.geography === to_lower_case g

  abbrev pub has_vintage : ℤ → CreditMetadata → Bool
  has_vintage y c = is_number c.vintage_year y

  -- The filters one after the other.
  unfoldable pub apply_filters :
      ListCreditsFilter → List CreditMetadata → Result (List CreditMetadata)
  unfolding by_min_tonnes by_max_tonnes filter_result at_least at_most parse_big_int
  apply_filters f cs =
      when_given (given f.status) (λ s l. ok (filter (has_status s) l)) cs
      >>? when_given (given f.methodology) (λ m l. ok (filter (has_methodology m) l))
      >>? when_given (given f.geography) (λ g l. ok (filter (has_geography g) l))
      >>? when_given (given_number f.vintage_year) (λ y l. ok (filter (has_vintage y) l))
      >>? when_given (given f.min_tonnes) by_min_tonnes
      >>? when_given (given f.max_tonnes) by_max_tonnes
