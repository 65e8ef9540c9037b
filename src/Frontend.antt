-- ===== src/Frontend.antt =====
-- The web application under frontend/src/app/core and its forms. A request is answered by the outcome of
-- a promise, which is an argument. The HTTP client, the Freighter extension and JSON are parameters.
pub mod Store
pub mod Toasts
pub mod Wallet
pub mod Session
pub mod Retire
pub mod VerifierAdmin
pub mod ProjectDetail
pub mod Preferences
pub mod Dashboard
pub mod CreditDetail
pub mod Marketplace
use carbonchain.Prelude.{
  ℕ, suc, ◌≡◌, refl, ◌⊎◌, inl, inr, String, Bool, Option, none, some, List, [], ◌∷◌, if◌then◌else◌,
  ◌++◌, ◌+◌, take, drop, find, arith, ◌===◌, ===_iff,
}
use carbonchain.Prelude.Results.{Result, ok, err}

-- What a promise is rejected with: an `Error` with its message, or anything else. The HTTP client's
-- `HttpErrorResponse` is not an instance of `Error`.
pub data Rejection : Type 0 where
  an_error : String → Rejection
  other : Rejection

pub data Outcome {ℓ} (A : Type ℓ) : Type ℓ where
  fulfilled : A → Outcome A
  rejected : Rejection → Outcome A

pub Outcome-cases {ℓ} :
    {A : Type ℓ} (o : Outcome A)
    → ((a : A) × (o ≡ fulfilled a)) ⊎ ((e : Rejection) × (o ≡ rejected e))
Outcome-cases (fulfilled a) = inl (a, refl)
Outcome-cases (rejected e) = inr (e, refl)

-- The answer of the HTTP client: an exception of the API is an `HttpErrorResponse`.
abbrev pub over_http : {A : Type 0} → Result A → Outcome A
over_http (ok a) = fulfilled a
over_http (err e) = rejected other

-- `err instanceof Error ? err.message : fallback`
unfoldable pub message_of : String → Rejection → String
message_of fallback (an_error message) = message
message_of fallback other = fallback

pub data LoadingState : Type 0 where
  idle loading loaded error : LoadingState

pub data IsLoading : LoadingState → Type 0 where
  is_loading : IsLoading loading

infixl 5 ◌and_then◌
abbrev pub ◌and_then◌ {ℓ κ} : {A : Type ℓ} {B : Type κ} → Outcome A → (A → Outcome B) → Outcome B
fulfilled a and_then f = f a
rejected e and_then f = rejected e

-- `Promise.all`, the rejections arriving in the order of the promises.
abbrev pub promise_all {ℓ} : {A : Type ℓ} → List (Outcome A) → Outcome (List A)
promise_all [] = fulfilled []
promise_all (o ∷ os) = o and_then λ a. promise_all os and_then λ as_. fulfilled (a ∷ as_)

-- `findIndex`, which answers −1 as `none`.
abbrev pub find_index {ℓ} : {A : Type ℓ} → (A → Bool) → List A → Option ℕ
find_index p [] = none
find_index p (x ∷ xs) =
    if p x then some 0 else elim (find_index p xs) [ none ↦ none | some i ↦ some (suc i) ]

-- A list with the item put in the place of the first one with its key, or at the end.
module _ {ℓ} {A : Type ℓ} (key : A → String) where
  abbrev pub put : String → A → List A → List A
  put k a list = elim (find_index (λ x. key x === k) list) [
    | some idx ↦ take idx list ++ a ∷ drop (idx + 1) list
    | none ↦ list ++ a ∷ []
  ]

  put-cons :
      (k : String) (a x : A) (xs : List A)
      → put k a (x ∷ xs) ≡ (if key x === k then a ∷ xs else x ∷ put k a xs)
  put-cons k a x xs = ground arith

  pub find-put :
      (j k : String) (a : A) (xs : List A)
      → key a ≡ k
      → find (λ x. key x === j) (put k a xs)
        ≡ (if k === j then some a else find (λ x. key x === j) xs)
  find-put j k a [] h = rw h refl
  find-put j k a (x ∷ xs) h = ground (
    arith,
    put-cons k a x xs,
    find-put j k a xs h,
    ===_iff (key x) k,
    ===_iff (key x) j,
    ===_iff k j,
    ===_iff (key a) j,
  )
