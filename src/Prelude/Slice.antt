-- ===== src/Prelude/Slice.antt =====
-- `Array.prototype.slice(start, end)`: a negative index counts from the end, both are clamped.
use Prim.Native.Nat.{ℕ, zero, suc, ◌+◌, ◌-◌, min}
use mathlib.Core.Path.{◌≡◌, refl, ap}
use mathlib.Core.List.{List, [], ◌∷◌}
use native.Mathlib.Omega.{arith}
use carbonchain.Prelude.Lists.{length, take, drop, length-drop, All, All-take, All-drop}
use carbonchain.Prelude.Int.{ℤ, pos, negsuc}

-- `relativeStart`, `relativeEnd` of the standard.
abbrev pub clamp_index : ℕ → ℤ → ℕ
clamp_index len (pos n) = min n len
clamp_index len (negsuc n) = len - suc n

module _ {ℓ} {A : Type ℓ} where
  unfoldable pub slice : List A → ℤ → ℤ → List A
  slice xs start end =
      let k = clamp_index (length xs) start in take (clamp_index (length xs) end - k) (drop k xs)

  take_clamped :
      (n m : ℕ) (xs : List A) → min n (length xs) ≡ min m (length xs) → take n xs ≡ take m xs
  take_clamped zero zero xs h = refl
  take_clamped zero (suc m) [] h = refl
  take_clamped zero (suc m) (x ∷ xs) h = absurd (omega arith)
  take_clamped (suc n) zero [] h = refl
  take_clamped (suc n) zero (x ∷ xs) h = absurd (omega arith)
  take_clamped (suc n) (suc m) [] h = refl
  take_clamped (suc n) (suc m) (x ∷ xs) h = ap (◌∷◌ x) (take_clamped n m xs (omega arith))

  drop_clamped : (n : ℕ) (xs : List A) → drop (min n (length xs)) xs ≡ drop n xs
  drop_clamped zero xs = let e : min 0 (length xs) ≡ 0 = omega arith in rw e
  drop_clamped (suc n) [] = let e : min (suc n) 0 ≡ 0 = omega arith in rw e
  drop_clamped (suc n) (x ∷ xs) =
      let e : min (suc n) (suc (length xs)) ≡ suc (min n (length xs)) = omega arith in
      rw e (drop_clamped n xs)

  -- A slice of `n` items from a start that is not negative.
  pub slice-pos :
      (xs : List A) (start n : ℕ) → slice xs (pos start) (pos (start + n)) ≡ take n (drop start xs)
  unfolding slice
  slice-pos xs start n =
      rw (drop_clamped start xs)
        (take_clamped _ n (drop start xs) (omega (arith, length-drop start xs)))

  pub All-slice {κ} :
      (P : A → Type κ) (xs : List A) (start end : ℤ) → All P xs → All P (slice xs start end)
  unfolding slice
  All-slice P xs start end h = All-take P _ _ (All-drop P _ xs h)

  drop-nil : (n : ℕ) → drop {A = A} n [] ≡ []
  drop-nil zero = refl
  drop-nil (suc n) = refl

  take-nil : (n : ℕ) → take {A = A} n [] ≡ []
  take-nil zero = refl
  take-nil (suc n) = refl

  pub slice-nil : (start end : ℤ) → slice [] start end ≡ []
  unfolding slice
  slice-nil start end = rw (drop-nil (clamp_index 0 start)) (take-nil _)
