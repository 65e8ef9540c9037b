-- ===== src/Prelude/Results.antt =====
-- Exceptions as values, and code that changes a state and may throw: what was written before a
-- `throw` stays written, as in JavaScript.
use Prim.Native.String.{String}
use mathlib.Core.Path.{◌≡◌, refl}
use mathlib.Core.Logic.{◌⊎◌, inl, inr}
use mathlib.Core.Option.{Option, none, some}

-- The classes of `@nestjs/common` that the program throws, and every other `Error`.
pub data Exception : Type 0 where
  not_found bad_request unauthorized forbidden too_many_requests error : String → Exception

pub data Result {ℓ} (A : Type ℓ) : Type ℓ where
  ok : A → Result A
  err : Exception → Result A

-- A computation over the state `S`.
abbrev pub Io {ℓ} : Type ℓ → Type ℓ → Type ℓ
Io S A = S → Result A × S

abbrev pub and_then {ℓ} : {S A B : Type ℓ} → Result A × S → (A → Io S B) → Result B × S
and_then (ok a, s) f = f a s
and_then (err e, s) f = (err e, s)

infixl 5 ◌>>=◌ ◌>>◌
abbrev pub ◌>>=◌ {ℓ} : {S A B : Type ℓ} → Io S A → (A → Io S B) → Io S B
◌>>=◌ m f s = and_then (m s) f

abbrev pub ◌>>◌ {ℓ} : {S A B : Type ℓ} → Io S A → Io S B → Io S B
m >> k = m >>= λ _. k

abbrev pub pure {ℓ} : {S A : Type ℓ} → A → Io S A
pure a s = (ok a, s)

abbrev pub throw {ℓ} : {S A : Type ℓ} → Exception → Io S A
throw e s = (err e, s)

abbrev pub lift {ℓ} : {S A : Type ℓ} → Result A → Io S A
lift r s = (r, s)

abbrev pub handle {ℓ} : {S A : Type ℓ} → Result A × S → (Exception → Io S A) → Result A × S
handle (ok a, s) h = (ok a, s)
handle (err e, s) h = h e s

-- `try { m } catch (e) { h(e) }`
abbrev pub catch {ℓ} : {S A : Type ℓ} → Io S A → (Exception → Io S A) → Io S A
catch m h s = handle (m s) h

infixl 5 ◌>>?◌
abbrev pub ◌>>?◌ {ℓ κ} : {A : Type ℓ} {B : Type κ} → Result A → (A → Result B) → Result B
ok a >>? f = f a
err e >>? f = err e

abbrev pub or_throw {ℓ} : {A : Type ℓ} → Option A → Exception → Result A
or_throw none e = err e
or_throw (some a) e = ok a

pub >>?-eq-ok {ℓ κ} :
    {A : Type ℓ} {B : Type κ} (m : Result A) (f : A → Result B) {b : B}
    → (m >>? f) ≡ ok b
    → (a : A) × (m ≡ ok a) × (f a ≡ ok b)
>>?-eq-ok (ok a) f h = (a, refl, h)
>>?-eq-ok (err e) f h = cc

pub Result-cases {ℓ} :
    {A : Type ℓ} (r : Result A) → ((a : A) × (r ≡ ok a)) ⊎ ((e : Exception) × (r ≡ err e))
Result-cases (ok a) = inl (a, refl)
Result-cases (err e) = inr (e, refl)

-- What throws before a computation keeps it from running.
pub lift-err {ℓ} :
    {S A B : Type ℓ} (r : Result A) (f : A → Io S B) (s : S) {e : Exception}
    → r ≡ err e
    → (lift r >>= f) s ≡ (err e, s)
lift-err r f s h = rw h refl

pub lift-ok {ℓ} :
    {S A B : Type ℓ} (r : Result A) (f : A → Io S B) (s : S) {a : A}
    → r ≡ ok a
    → (lift r >>= f) s ≡ f a s
lift-ok r f s h = rw h refl

-- What reads the result of a computation changes its state no further.
pub and_then-lift {ℓ} :
    {S A B : Type ℓ} (o : Result A × S) (f : A → Result B)
    → and_then o (λ a. lift (f a)) ≡ (o.0 >>? f, o.1)
and_then-lift (ok a, s) f = refl
and_then-lift (err e, s) f = refl
