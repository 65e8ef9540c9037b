-- ===== src/Credits/Methodologies/Names.antt =====
-- Which names of methodologies pass.
use Prim.Native.String.{[], ◌∷◌}
use carbonchain.Prelude.{
  ℕ, ◌≤◌, String, ◌≡◌, ◌↔◌, ◌⊎◌, inl, inr, refl, Bool, true, false, ◌&&◌, not, none, some, arith,
  ltb, leb, ◌===◌, ===_iff, is_empty, if◌then◌else◌,
}
use carbonchain.Prelude.Text.{is_space, trim, all_units, trim-empty, cons-ne-empty}
use carbonchain.Credits.Methodologies.{
  is_predefined, utf16_length, is_custom_unit, is_custom, is_valid_methodology,
  validate_methodology,
}

-- The names that are neither predefined nor refused.
pub record IsCustom (s : String) : Type 0 where
  pub units : all_units is_custom_unit s ≡ true
  pub short : utf16_length s ≤ 50
  pub visible : all_units is_space s ≡ false

predefined_lem :
    (s : String)
    → is_predefined s ≡ true
    → (s ≡ "REDD+") ⊎ (s ≡ "VCS") ⊎ (s ≡ "Gold Standard") ⊎ (s ≡ "CDM") ⊎ (s ≡ "Plan Vivo")
unfolding is_predefined
predefined_lem s h = ground (
  arith,
  ===_iff s "REDD+",
  ===_iff s "VCS",
  ===_iff s "Gold Standard",
  ===_iff s "CDM",
  ===_iff s "Plan Vivo",
)

abbrev Plain : String → Type 0
Plain s = (is_empty s ≡ false) × (all_units is_space s ≡ false) × (ltb 50 (utf16_length s) ≡ false)

predefined-Plain : (s : String) → is_predefined s ≡ true → Plain s
predefined-Plain s h = elim (predefined_lem s h) [
  | inl e ↦ rw e (refl, refl, refl)
  | inr (inl e) ↦ rw e (refl, refl, refl)
  | inr (inr (inl e)) ↦ rw e (refl, refl, refl)
  | inr (inr (inr (inl e))) ↦ rw e (refl, refl, refl)
  | inr (inr (inr (inr e))) ↦ rw e (refl, refl, refl)
]

utf16_length-visible :
    (s : String) → all_units is_space s ≡ false → (is_empty s ≡ false) × (1 ≤ utf16_length s)
utf16_length-visible [] h = cc
utf16_length-visible (c ∷ s) h = (cons-ne-empty c s, ground arith)

in_range :
    (b : Bool) (n : ℕ) → 1 ≤ n → ((b && leb 1 n && leb n 50) ≡ true) ↔ ((b ≡ true) × (n ≤ 50))
in_range b n h = ground arith

over : (n : ℕ) → (ltb 50 n ≡ false) ↔ (n ≤ 50)
over n = ground arith

custom :
    (s : String)
    → all_units is_space s ≡ false
    → (is_custom s ≡ true) ↔ ((all_units is_custom_unit s ≡ true) × (utf16_length s ≤ 50))
custom s h = in_range (all_units is_custom_unit s) (utf16_length s) (utf16_length-visible s h).1

-- The order of the checks of `validateMethodology`, over their outcomes.
checks :
    (e t l p c : Bool) (m1 m2 m3 m4 : String)
    → ((if e
          then some m1
          else if t
          then some m2
          else if l
          then some m3
          else if not (if e then false else if p then true else c)
          then some m4
          else none)
        ≡ none)
      ↔ ((e ≡ false) × (t ≡ false) × (l ≡ false) × ((p ≡ true) ⊎ (c ≡ true)))
checks e t l p c m1 m2 m3 m4 = ground arith

passes :
    (s : String)
    → (validate_methodology s ≡ none) ↔ (
        (is_empty s ≡ false)
        × (all_units is_space s ≡ false)
        × (ltb 50 (utf16_length s) ≡ false)
        × ((is_predefined s ≡ true) ⊎ (is_custom s ≡ true)))
unfolding validate_methodology is_valid_methodology
passes s = rw (← trim-empty s) (
    checks (is_empty s) (trim s === "") (ltb 50 (utf16_length s)) (is_predefined s) (is_custom s) _
      _ _ _)

-- A name passes exactly if it is one of the five predefined ones, or has at most 50 UTF-16 code units,
-- all of them letters, digits, `-`, `_` or white space, and not all of them white space. No prefix is
-- asked for.
pub validate_methodology_iff :
    (s : String) → (validate_methodology s ≡ none) ↔ ((is_predefined s ≡ true) ⊎ IsCustom s)
validate_methodology_iff s = (
  λ h.
      let (e, v, l, c) = (passes s).0 h in
      elim c [
        | inl p ↦ inl p
        | inr c ↦
            let (u, n) = (custom s v).0 c in inr (record { units = u; short = n; visible = v })
      ],
  λ h. (passes s).1 (elim h [
    | inl p ↦ let (e, v, l) = predefined-Plain s p in (e, v, l, inl p)
    | inr c ↦ (
      (utf16_length-visible s c.visible).0,
      c.visible,
      (over (utf16_length s)).1 c.short,
      inr ((custom s c.visible).1 (c.units, c.short)),
    )
  ]),
)
