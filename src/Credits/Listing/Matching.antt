-- ===== src/Credits/Listing/Matching.antt =====
-- Which credits a listing selects, stated by their fields and proved of the chain of filters.
use carbonchain.Prelude.{
  String, ◌≡◌, ◌∙◌, ◌↔◌, Bool, true, ◌&&◌, some, List, ===_iff, and-eq-true, and_true, filter,
  filter-filter,
}
use carbonchain.Prelude.Int.{ℤ, pos}
use carbonchain.Prelude.Results.{ok, >>?-eq-ok}
use carbonchain.Shared.{status_text, CreditMetadata}
use carbonchain.Credits.Listing.{
  ListCreditsFilter, given, given_number, has_status, has_methodology, has_geography, has_vintage,
  apply_filters,
}
use carbonchain.Credits.Listing.Stages.{
  TonnesLe, tonnes_le, tonnes_le_iff, holds, holds_iff, stage_filter, stage_min, stage_max,
  is_number_iff,
}

module _ (to_lower_case : String → String) where
  -- What the caller asks for.
  pub record Matches (f : ListCreditsFilter) (c : CreditMetadata) : Type 0 where
    pub status : (s : String) → given f.status ≡ some s → status_text c.status ≡ s
    pub methodology :
        (m : String) → given f.methodology ≡ some m → to_lower_case c.methodology ≡ to_lower_case m
    pub geography :
        (g : String) → given f.geography ≡ some g → to_lower_case c.geography ≡ to_lower_case g
    pub vintage : (y : ℤ) → given_number f.vintage_year ≡ some y → pos c.vintage_year ≡ y
    pub at_least_min : (t : String) → given f.min_tonnes ≡ some t → TonnesLe t c.tonnes
    pub at_most_max : (t : String) → given f.max_tonnes ≡ some t → TonnesLe c.tonnes t

  abbrev status_ok : ListCreditsFilter → CreditMetadata → Bool
  status_ok f c = holds (given f.status) (λ s. has_status to_lower_case s c)

  abbrev methodology_ok : ListCreditsFilter → CreditMetadata → Bool
  methodology_ok f c = holds (given f.methodology) (λ m. has_methodology to_lower_case m c)

  abbrev geography_ok : ListCreditsFilter → CreditMetadata → Bool
  geography_ok f c = holds (given f.geography) (λ g. has_geography to_lower_case g c)

  abbrev vintage_ok : ListCreditsFilter → CreditMetadata → Bool
  vintage_ok f c = holds (given_number f.vintage_year) (λ y. has_vintage to_lower_case y c)

  abbrev min_ok : ListCreditsFilter → CreditMetadata → Bool
  min_ok f c = holds (given f.min_tonnes) (λ t. tonnes_le t c.tonnes)

  abbrev max_ok : ListCreditsFilter → CreditMetadata → Bool
  max_ok f c = holds (given f.max_tonnes) (λ t. tonnes_le c.tonnes t)

  pub wanted : ListCreditsFilter → CreditMetadata → Bool
  wanted f c =
      ((((status_ok f c && methodology_ok f c) && geography_ok f c) && vintage_ok f c)
        && min_ok f c)
      && max_ok f c

  wanted-Matches : (f : ListCreditsFilter) (c : CreditMetadata) → wanted f c ≡ true → Matches f c
  unfolding wanted
  wanted-Matches f c h =
      let (h5, p6) = and-eq-true _ (max_ok f c) h in
      let (h4, p5) = and-eq-true _ (min_ok f c) h5 in
      let (h3, p4) = and-eq-true _ (vintage_ok f c) h4 in
      let (h2, p3) = and-eq-true _ (geography_ok f c) h3 in
      let (p1, p2) = and-eq-true (status_ok f c) (methodology_ok f c) h2 in
      record {
        status =
            λ s e. (===_iff _ _).0 ((holds_iff _ (λ x. has_status to_lower_case x c)).0 p1 s e);
        methodology = λ m e.
            (===_iff _ _).0 ((holds_iff _ (λ x. has_methodology to_lower_case x c)).0 p2 m e);
        geography =
            λ g e. (===_iff _ _).0 ((holds_iff _ (λ x. has_geography to_lower_case x c)).0 p3 g e);
        vintage = λ y e.
            (is_number_iff _ _).0 ((holds_iff _ (λ x. has_vintage to_lower_case x c)).0 p4 y e);
        at_least_min = λ t e.
            (tonnes_le_iff t c.tonnes).0 ((holds_iff _ (λ x. tonnes_le x c.tonnes)).0 p5 t e);
        at_most_max = λ t e.
            (tonnes_le_iff c.tonnes t).0 ((holds_iff _ (λ x. tonnes_le c.tonnes x)).0 p6 t e);
      }

  Matches-wanted : (f : ListCreditsFilter) (c : CreditMetadata) → Matches f c → wanted f c ≡ true
  unfolding wanted
  Matches-wanted f c m =
      let p1 : status_ok f c ≡ true =
        (holds_iff _ (λ x. has_status to_lower_case x c)).1
          (λ s e. (===_iff _ _).1 (m.status s e)) in
      let p2 : methodology_ok f c ≡ true =
        (holds_iff _ (λ x. has_methodology to_lower_case x c)).1
          (λ x e. (===_iff _ _).1 (m.methodology x e)) in
      let p3 : geography_ok f c ≡ true =
        (holds_iff _ (λ x. has_geography to_lower_case x c)).1
          (λ g e. (===_iff _ _).1 (m.geography g e)) in
      let p4 : vintage_ok f c ≡ true =
        (holds_iff _ (λ x. has_vintage to_lower_case x c)).1
          (λ y e. (is_number_iff _ _).1 (m.vintage y e)) in
      let p5 : min_ok f c ≡ true =
        (holds_iff _ (λ x. tonnes_le x c.tonnes)).1
          (λ t e. (tonnes_le_iff t c.tonnes).1 (m.at_least_min t e)) in
      let p6 : max_ok f c ≡ true =
        (holds_iff _ (λ x. tonnes_le c.tonnes x)).1
          (λ t e. (tonnes_le_iff c.tonnes t).1 (m.at_most_max t e)) in
      and_true (and_true (and_true (and_true (and_true p1 p2) p3) p4) p5) p6

  pub wanted_iff : (f : ListCreditsFilter) (c : CreditMetadata) → (wanted f c ≡ true) ↔ Matches f c
  wanted_iff f c = (wanted-Matches f c, Matches-wanted f c)

  -- When the filters succeed they keep, in order, exactly the credits that match what was asked for.
  pub apply_filters-Matches :
      (f : ListCreditsFilter) (cs out : List CreditMetadata)
      → apply_filters to_lower_case f cs ≡ ok out
      → (out ≡ filter (wanted f) cs) × ((c : CreditMetadata) → (wanted f c ≡ true) ↔ Matches f c)
  unfolding apply_filters wanted
  apply_filters-Matches f cs out e =
      let (l5, e5, r6) = >>?-eq-ok _ _ e in
      let (l4, e4, r5) = >>?-eq-ok _ _ e5 in
      let (l3, e3, r4) = >>?-eq-ok _ _ e4 in
      let (l2, e2, r3) = >>?-eq-ok _ _ e3 in
      let (l1, e1, r2) = >>?-eq-ok _ _ e2 in
      let q1 = stage_filter (given f.status) (has_status to_lower_case) cs e1 in
      let q2 = stage_filter (given f.methodology) (has_methodology to_lower_case) l1 r2 in
      let q3 = stage_filter (given f.geography) (has_geography to_lower_case) l2 r3 in
      let q4 = stage_filter (given_number f.vintage_year) (has_vintage to_lower_case) l3 r4 in
      let q5 = stage_min (given f.min_tonnes) l4 r5 in
      let q6 = stage_max (given f.max_tonnes) l5 r6 in
      (q6 ∙ simp (q5, q4, q3, q2, q1, filter-filter), wanted_iff f)
