-- ===== src/Paging/Pages.antt =====
-- What the pages of one list hold together.
use carbonchain.Prelude.{
  ℕ, zero, suc, ◌+◌, ◌-◌, ◌*◌, ◌≤◌, min, ◌≡◌, refl, sym, ap, ◌∙◌, List, [], ◌∷◌, ◌++◌, arith,
  length, take, drop, length-take, length-drop, take-append-drop, drop_all,
}
use carbonchain.Prelude.Int.{ℤ, pos, ◌+ℤ◌, ◌-ℤ◌, ◌*ℤ◌, +ℤ-pos, -ℤ-pos_one, *ℤ-pos}
use carbonchain.Prelude.Slice.{slice-pos, slice-nil}
use carbonchain.Paging.{paginate}

module _ {ℓ} {A : Type ℓ} where
  -- Page `p + 1` holds the `l` items from position `p * l` on.
  pub paginate-items :
      (xs : List A) (p l : ℕ) → (paginate xs (pos (suc p)) (pos l)).items ≡ take l (drop (p * l) xs)
  unfolding paginate
  paginate-items xs p l = rw (-ℤ-pos_one, *ℤ-pos, +ℤ-pos) (slice-pos xs (p * l) l)

  pub paginate-nil :
      (page limit : ℤ)
      → ((paginate {A = A} [] page limit).items ≡ []) × ((paginate {A = A} [] page limit).total ≡ 0)
  unfolding paginate
  paginate-nil page limit =
      (slice-nil ((page -ℤ pos 1) *ℤ limit) ((page -ℤ pos 1) *ℤ limit +ℤ limit), refl)

  drop-drop : (n m : ℕ) (xs : List A) → drop m (drop n xs) ≡ drop (n + m) xs
  drop-drop zero m xs = let e : 0 + m ≡ m = omega arith in rw e
  drop-drop (suc n) m [] = drop_all m [] (omega arith) ∙ sym (drop_all (suc n + m) [] (omega arith))
  drop-drop (suc n) m (x ∷ xs) =
      let e : suc n + m ≡ suc (n + m) = omega arith in rw e (drop-drop n m xs)

  -- The pages from `p + 1` on, `n` of them, one after the other.
  pub pages : List A → ℕ → ℕ → ℕ → List A
  pages xs l p zero = []
  pages xs l p (suc n) = (paginate xs (pos (suc p)) (pos l)).items ++ pages xs l (suc p) n

  pages_from :
      (xs : List A) (l p n : ℕ) → length xs ≤ p * l + n * l → pages xs l p n ≡ drop (p * l) xs
  unfolding pages
  pages_from xs l p zero h = sym (drop_all (p * l) xs (omega arith))
  pages_from xs l p (suc n) h =
      let next : p * l + l ≡ suc p * l = grind arith in
      let ih = pages_from xs l (suc p) n (grind arith) in
      simp (paginate-items, ih, ← next)
        (ap (λ t. take l (drop (p * l) xs) ++ t) (sym (drop-drop (p * l) l xs))
          ∙ take-append-drop l (drop (p * l) xs))

  pub length-paginate :
      (xs : List A) (p l : ℕ)
      → length (paginate xs (pos (suc p)) (pos l)).items ≡ min l (length xs - p * l)
  length-paginate xs p l =
      rw (paginate-items, length-take l (drop (p * l) xs), length-drop (p * l) xs)

  -- Reading the pages 1 to `n` of `l` items each, with `n * l` at least the number of items, visits
  -- every item exactly once and in order; each page says how many items there are in all, and holds
  -- at most `l` of them.
  pub pages_cover :
      (xs : List A) (l n : ℕ)
      → length xs ≤ n * l
      → (pages xs l 0 n ≡ xs)
        × ((p : ℕ)
            → ((paginate xs (pos (suc p)) (pos l)).total ≡ length xs)
              × (length (paginate xs (pos (suc p)) (pos l)).items ≡ min l (length xs - p * l)))
  unfolding paginate
  pages_cover xs l n h =
      let e : 0 * l ≡ 0 = omega arith in
      let whole = pages_from xs l 0 n (omega arith) in
      (rw e at whole, λ p. (refl, length-paginate xs p l))
