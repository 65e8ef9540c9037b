-- ===== src/Credits/Listing/Stages.antt =====
-- Each of the filters on its own, and what it compares.
use carbonchain.Prelude.{
  ℕ, String, ◌≡◌, refl, ◌↔◌, inl, inr, Bool, true, false, Option, none, some, List, [], ◌∷◌, arith,
  ==_iff, filter, filter-true, Option-cases, ap,
}
use carbonchain.Prelude.Int.{ℤ, pos, negsuc, leb_ℤ}
use carbonchain.Prelude.BigInt.{big_int}
use carbonchain.Prelude.Results.{Result, ok, >>?-eq-ok}
use carbonchain.Shared.{CreditMetadata}
use carbonchain.Credits.Listing.{
  is_number, parse_big_int, filter_result, when_given, at_least, at_most, by_min_tonnes,
  by_max_tonnes,
}

-- Both texts are integers, the first at most the second.
abbrev pub TonnesLe : String → String → Type 0
TonnesLe t u = (a : ℤ) × (b : ℤ) × (big_int t ≡ some a) × (big_int u ≡ some b) × (leb_ℤ a b ≡ true)

abbrev pub tonnes_le : String → String → Bool
tonnes_le t u = elim (big_int t) [
  | none ↦ false
  | some a ↦ elim (big_int u) [ none ↦ false | some b ↦ leb_ℤ a b ]
]

pub tonnes_le_iff : (t u : String) → (tonnes_le t u ≡ true) ↔ TonnesLe t u
tonnes_le_iff t u = elim (Option-cases (big_int t)) [
  | inl e ↦ (λ h. absurd (ground (arith, e)), λ h. let (a, b, p, q, le) = h in ground arith)
  | inr (a, e) ↦ elim (Option-cases (big_int u)) [
    | inl f ↦ (λ h. absurd (ground (arith, e, f)), λ h. let (a', b', p, q, le) = h in ground arith)
    | inr (b, f) ↦
        (λ h. (a, b, e, f, ground (arith, e, f)), λ h. let (a', b', p, q, le) = h in ground arith)
  ]
]

-- A field of the filter that is not given asks for nothing.
abbrev pub holds {ℓ} : {A : Type ℓ} → Option A → (A → Bool) → Bool
holds none p = true
holds (some a) p = p a

pub holds_iff {ℓ} :
    {A : Type ℓ} (o : Option A) (p : A → Bool)
    → (holds o p ≡ true) ↔ ((a : A) → o ≡ some a → p a ≡ true)
holds_iff none p = (λ h a e. cc, λ h. refl)
holds_iff (some a) p = (λ h b e. cc, λ h. h a refl)

pub stage_filter {ℓ} :
    {A : Type ℓ} (o : Option A) (p : A → CreditMetadata → Bool) (cs : List CreditMetadata)
    {out : List CreditMetadata}
    → when_given o (λ a l. ok (filter (p a) l)) cs ≡ ok out
    → out ≡ filter (λ c. holds o (λ a. p a c)) cs
stage_filter none p cs e = cc (filter-true cs)
stage_filter (some a) p cs e = cc

filter_result_lem :
    (test : CreditMetadata → Result Bool) (p : CreditMetadata → Bool) (cs : List CreditMetadata)
    {out : List CreditMetadata}
    → ((c : CreditMetadata) (b : Bool) → test c ≡ ok b → b ≡ p c)
    → filter_result test cs ≡ ok out
    → out ≡ filter p cs
unfolding filter_result
filter_result_lem test p [] agree e = cc
filter_result_lem test p (c ∷ cs) agree e =
    let (keep, tested, e1) = >>?-eq-ok (test c) _ e in
    let (rest, filtered, e2) = >>?-eq-ok (filter_result test cs) _ e1 in
    let ih = filter_result_lem test p cs agree filtered in
    let same = agree c keep tested in ground arith

at_least_agrees :
    (t : String) (a : ℤ) (c : CreditMetadata) (b : Bool)
    → parse_big_int t ≡ ok a
    → at_least a c ≡ ok b
    → b ≡ tonnes_le t c.tonnes
unfolding at_least parse_big_int
at_least_agrees t a c b e h = ground arith

at_most_agrees :
    (t : String) (a : ℤ) (c : CreditMetadata) (b : Bool)
    → parse_big_int t ≡ ok a
    → at_most a c ≡ ok b
    → b ≡ tonnes_le c.tonnes t
unfolding at_most parse_big_int
at_most_agrees t a c b e h = ground arith

pub stage_min :
    (o : Option String) (cs : List CreditMetadata) {out : List CreditMetadata}
    → when_given o by_min_tonnes cs ≡ ok out
    → out ≡ filter (λ c. holds o (λ t. tonnes_le t c.tonnes)) cs
unfolding by_min_tonnes
stage_min none cs e = cc (filter-true cs)
stage_min (some t) cs e =
    let (a, parsed, e1) = >>?-eq-ok (parse_big_int t) _ e in
    filter_result_lem (at_least a) _ cs (λ c b. at_least_agrees t a c b parsed) e1

pub stage_max :
    (o : Option String) (cs : List CreditMetadata) {out : List CreditMetadata}
    → when_given o by_max_tonnes cs ≡ ok out
    → out ≡ filter (λ c. holds o (λ t. tonnes_le c.tonnes t)) cs
unfolding by_max_tonnes
stage_max none cs e = cc (filter-true cs)
stage_max (some t) cs e =
    let (a, parsed, e1) = >>?-eq-ok (parse_big_int t) _ e in
    filter_result_lem (at_most a) _ cs (λ c b. at_most_agrees t a c b parsed) e1

pub is_number_iff : (a : ℕ) (b : ℤ) → (is_number a b ≡ true) ↔ (pos a ≡ b)
is_number_iff a (pos b) = (λ h. ap pos ((==_iff a b).0 h), λ e. (==_iff a b).1 (cc))
is_number_iff a (negsuc b) = (λ h. cc, λ e. cc)
