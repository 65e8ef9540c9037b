-- ===== src/Frontend/VerifierAdmin/Selection.antt =====
-- Which capabilities are sent for a verifier after the boxes were ticked and unticked.
use Prim.Native.Nat.{◌%◌}
use carbonchain.Prelude.{
  ℕ, suc, ◌+◌, ◌≤◌, String, ◌≡◌, not, ◌==◌, ◌-◌, List, [], ◌∷◌, ◌++◌, arith, ◌===◌, ===_iff, any,
  count, filter, if◌then◌else◌,
}
use carbonchain.Frontend.VerifierAdmin.{
  Page, open_configure, toggled, toggle_methodology, toggle_geography,
}

pub occurrences : String → List String → ℕ
occurrences m xs = count (λ x. x === m) xs

occurrences-append :
    (m n : String) (xs : List String)
    → occurrences m (xs ++ n ∷ []) ≡ occurrences m xs + (if n === m then 1 else 0)
unfolding occurrences
occurrences-append m n [] = ground arith
occurrences-append m n (x ∷ xs) = ground (arith, occurrences-append m n xs)

occurrences-filter :
    (m n : String) (xs : List String)
    → occurrences m (filter (λ x. not (x === n)) xs) ≡ (if n === m then 0 else occurrences m xs)
unfolding occurrences
occurrences-filter m n [] = ground arith
occurrences-filter m n (x ∷ xs) =
    ground (arith, occurrences-filter m n xs, ===_iff x n, ===_iff x m, ===_iff n m)

any-occurrences :
    (n : String) (xs : List String) → any (λ x. x === n) xs ≡ not (occurrences n xs == 0)
unfolding occurrences
any-occurrences n [] = ground arith
any-occurrences n (x ∷ xs) = ground (arith, any-occurrences n xs)

-- A toggle flips one option.
toggled-occurrences :
    (m n : String) (xs : List String)
    → occurrences m xs ≤ 1
    → occurrences m (toggled n xs) ≡ (if n === m then 1 - occurrences m xs else occurrences m xs)
unfolding toggled
toggled-occurrences m n xs h =
    ground (
      arith,
      any-occurrences n xs,
      occurrences-filter m n xs,
      occurrences-append m n xs,
      ===_iff n m,
    )

-- A box of the form.
pub data Box : Type 0 where
  methodology geography : String → Box

unfoldable pub click : Box → Page → Page
click (methodology m) p = toggle_methodology m p
click (geography g) p = toggle_geography g p

unfoldable pub click_all : List Box → Page → Page
unfolding click
click_all [] p = p
click_all (b ∷ bs) p = click_all bs (click b p)

-- How often the box of an option was clicked.
pub methodology_clicks : String → List Box → ℕ
methodology_clicks m [] = 0
methodology_clicks m (methodology n ∷ bs) =
    let rest = methodology_clicks m bs in if n === m then suc rest else rest
methodology_clicks m (geography g ∷ bs) = methodology_clicks m bs

pub geography_clicks : String → List Box → ℕ
geography_clicks g [] = 0
geography_clicks g (geography n ∷ bs) =
    let rest = geography_clicks g bs in if n === g then suc rest else rest
geography_clicks g (methodology m ∷ bs) = geography_clicks g bs

methodologies_clicked :
    (m : String) (bs : List Box) (p : Page)
    → occurrences m p.selected_methodologies ≤ 1
    → occurrences m (click_all bs p).selected_methodologies
      ≡ (occurrences m p.selected_methodologies + methodology_clicks m bs) % 2
unfolding click_all methodology_clicks toggle_methodology toggle_geography
methodologies_clicked m [] p h = omega arith
methodologies_clicked m (geography g ∷ bs) p h = methodologies_clicked m bs (toggle_geography g p) h
methodologies_clicked m (methodology n ∷ bs) p h =
    let flip = toggled-occurrences m n p.selected_methodologies h in
    ground (arith, flip, methodologies_clicked m bs (toggle_methodology n p))

geographies_clicked :
    (g : String) (bs : List Box) (p : Page)
    → occurrences g p.selected_geographies ≤ 1
    → occurrences g (click_all bs p).selected_geographies
      ≡ (occurrences g p.selected_geographies + geography_clicks g bs) % 2
unfolding click_all geography_clicks toggle_methodology toggle_geography
geographies_clicked g [] p h = omega arith
geographies_clicked g (methodology m ∷ bs) p h = geographies_clicked g bs (toggle_methodology m p) h
geographies_clicked g (geography n ∷ bs) p h =
    let flip = toggled-occurrences g n p.selected_geographies h in
    ground (arith, flip, geographies_clicked g bs (toggle_geography n p))

-- After the form was opened for a verifier and any boxes were clicked, an option is selected exactly if
-- its box was clicked an odd number of times, and then once: clicks on other boxes, also of the same
-- name in the other group, do not matter.
pub click_all-open_configure :
    (address : String) (bs : List Box) (p : Page) (option : String)
    → (occurrences option (click_all bs (open_configure address p)).selected_methodologies
        ≡ methodology_clicks option bs % 2)
      × (occurrences option (click_all bs (open_configure address p)).selected_geographies
          ≡ geography_clicks option bs % 2)
unfolding open_configure occurrences
click_all-open_configure address bs p option =
    let opened = open_configure address p in
    (
      omega (arith, methodologies_clicked option bs opened (omega arith)),
      omega (arith, geographies_clicked option bs opened (omega arith)),
    )
