-- ===== src/Frontend/Toasts/Ids.antt =====
-- Every toast has an id of its own.
use carbonchain.Prelude.{
  ℕ, ◌+◌, ◌≤◌, ◌<◌, ◌≡◌, refl, Bool, not, List, [], ◌∷◌, ◌++◌, arith, leb, ◌==◌, String, count,
  filter, if◌then◌else◌, Bool-cases, inl, inr,
}
use carbonchain.Frontend.Toasts.{
  Toast, ToastType, ToastService, Timer, Browser, page_loaded, dismiss, show, fire,
}

pub occurrences : ℕ → List Toast → ℕ
occurrences i ts = count (λ t. t.id == i) ts

occurrences-append :
    (i : ℕ) (ts : List Toast) (t : Toast)
    → occurrences i (ts ++ t ∷ []) ≡ occurrences i ts + (if t.id == i then 1 else 0)
unfolding occurrences
occurrences-append i [] t = ground arith
occurrences-append i (x ∷ ts) t = ground (arith, occurrences-append i ts t)

occurrences-filter_le :
    (i : ℕ) (p : Toast → Bool) (ts : List Toast) → occurrences i (filter p ts) ≤ occurrences i ts
unfolding occurrences
occurrences-filter_le i p [] = omega arith
occurrences-filter_le i p (x ∷ ts) = ground (arith, occurrences-filter_le i p ts)

-- Ids are at most the counter, and none is used twice.
pub record IsUnique (s : ToastService) : Type 0 where
  pub fresh : (i : ℕ) → s.counter < i → occurrences i s.toasts ≡ 0
  pub once : (i : ℕ) → occurrences i s.toasts ≤ 1

pub dismiss-IsUnique : (id : ℕ) (s : ToastService) → IsUnique s → IsUnique (dismiss id s)
unfolding dismiss
dismiss-IsUnique id s h = record {
  fresh = λ i lt.
      let le = occurrences-filter_le i (λ t. not (t.id == id)) s.toasts in
      let z = h.fresh i lt in omega arith;
  once = λ i.
      let le = occurrences-filter_le i (λ t. not (t.id == id)) s.toasts in
      let o = h.once i in omega arith;
}

-- The toast that a call of `show` adds.
abbrev shown : String → ToastType → Browser → Toast
shown m ty b = record { id = b.service.counter + 1; message = m; type = ty }

pub show-IsUnique :
    (m : String) (ty : ToastType) (d : ℕ) (b : Browser)
    → IsUnique b.service
    → IsUnique (show m ty d b).service
unfolding show
show-IsUnique m ty d b h = record {
  fresh = λ i lt. ground (arith, occurrences-append i b.service.toasts (shown m ty b), h.fresh i);
  once = λ i.
      ground (arith, occurrences-append i b.service.toasts (shown m ty b), h.fresh i, h.once i);
}

pub fire-IsUnique :
    (now : ℕ) (kept ms : List Timer) (s : ToastService)
    → IsUnique s
    → IsUnique (fire now kept ms s).0
unfolding fire
fire-IsUnique now kept [] s h = h
fire-IsUnique now kept (m ∷ ms) s h = elim (Bool-cases (leb m.due_ms now)) [
  | inl e ↦ rw e (fire-IsUnique now kept ms (dismiss m.toast_id s) (dismiss-IsUnique _ s h))
  | inr e ↦ rw e (fire-IsUnique now (m ∷ kept) ms s h)
]

pub page_loaded-IsUnique : IsUnique page_loaded.service
unfolding occurrences
page_loaded-IsUnique = record { fresh = λ i lt. refl; once = λ i. omega arith }
