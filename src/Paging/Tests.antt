-- ===== src/Paging/Tests.antt =====
-- Pages of a short list.
use carbonchain.Prelude.{ℕ, suc, ◌-◌, ◌*◌, min, ◌≡◌, refl, List, [], ◌∷◌, arith, length}
use carbonchain.Prelude.Int.{pos}
use carbonchain.Paging.{paginate}
use carbonchain.Paging.Pages.{pages, pages_cover}

abbrev three : List ℕ
three = 7 ∷ 8 ∷ 9 ∷ []

second_page : (paginate three (pos 2) (pos 2)).items ≡ 9 ∷ []
unfolding paginate
second_page = refl

pages_cover_example :
    (pages three 2 0 2 ≡ three)
    × ((p : ℕ)
        → ((paginate three (pos (suc p)) (pos 2)).total ≡ 3)
          × (length (paginate three (pos (suc p)) (pos 2)).items ≡ min 2 (3 - p * 2)))
pages_cover_example = pages_cover three 2 2 (omega arith)
