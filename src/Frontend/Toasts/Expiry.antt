-- ===== src/Frontend/Toasts/Expiry.antt =====
-- A toast leaves when its time is over.
use carbonchain.Prelude.{
  ℕ, ◌+◌, ◌≤◌, ◌≡◌, refl, Bool, true, ◌||◌, not, List, [], ◌∷◌, arith, leb, ◌==◌, String, any, All,
  All-mono, All-append, All-filter, filter, Bool-cases, inl, inr,
}
use carbonchain.Frontend.Toasts.{
  Toast, ToastType, ToastService, Timer, Browser, page_loaded, dismiss, show, handle_error, fire,
  advance, Event, shows, fails, dismisses, passes, step, run,
}
use carbonchain.Frontend.Toasts.Ids.{
  occurrences, IsUnique, page_loaded-IsUnique, dismiss-IsUnique, show-IsUnique, fire-IsUnique,
}

abbrev has_timer : List Timer → ℕ → Bool
has_timer ms i = any (λ m. m.toast_id == i) ms

-- Every toast on display has one of the timers.
abbrev IsTimed : List Timer → List Toast → Type 0
IsTimed ms ts = All (λ t. has_timer ms t.id ≡ true) ts

-- A due time that all timers keep.
abbrev DueBy : ℕ → List Timer → Type 0
DueBy t ms = All (λ m. m.due_ms ≤ t) ms

pending : List Timer → List Timer → ℕ → Bool
pending kept ms i = has_timer kept i || has_timer ms i

abbrev Covered : List Timer → List Timer → List Toast → Type 0
Covered kept ms ts = All (λ t. pending kept ms t.id ≡ true) ts

dismissed-Covered :
    (kept ms : List Timer) (m : Timer) (ts : List Toast)
    → Covered kept (m ∷ ms) ts
    → Covered kept ms (filter (λ t. not (t.id == m.toast_id)) ts)
unfolding pending
dismissed-Covered kept ms m [] h = tt
dismissed-Covered kept ms m (t ∷ ts) (p, h) = elim (Bool-cases (t.id == m.toast_id)) [
  | inl e ↦ rw e (dismissed-Covered kept ms m ts h)
  | inr e ↦ rw e (ground arith, dismissed-Covered kept ms m ts h)
]

fire-Covered :
    (now : ℕ) (kept ms : List Timer) (s : ToastService)
    → Covered kept ms s.toasts
    → IsTimed (fire now kept ms s).1 (fire now kept ms s).0.toasts
unfolding fire pending dismiss
fire-Covered now kept [] s h = All-mono s.toasts (λ t p. ground arith) h
fire-Covered now kept (m ∷ ms) s h = elim (Bool-cases (leb m.due_ms now)) [
  | inl e ↦
      rw (e, fire)
        (fire-Covered now kept ms (dismiss m.toast_id s) (dismissed-Covered kept ms m s.toasts h))
  | inr e ↦
      rw (e, fire) (fire-Covered now (m ∷ kept) ms s (All-mono s.toasts (λ t p. ground arith) h))
]

-- The timers that are kept are not due, and keep the bound.
fire-DueBy :
    (now bound : ℕ) (kept ms : List Timer) (s : ToastService)
    → DueBy bound kept
    → DueBy bound ms
    → DueBy bound (fire now kept ms s).1
unfolding fire
fire-DueBy now bound kept [] s h k = h
fire-DueBy now bound kept (m ∷ ms) s h (p, k) = elim (Bool-cases (leb m.due_ms now)) [
  | inl e ↦ rw (e, fire) (fire-DueBy now bound kept ms (dismiss m.toast_id s) h k)
  | inr e ↦ rw (e, fire) (fire-DueBy now bound (m ∷ kept) ms s (p, h) k)
]

-- Once all are due, none is kept.
fire_all : (now : ℕ) (ms : List Timer) (s : ToastService) → DueBy now ms → (fire now [] ms s).1 ≡ []
unfolding fire
fire_all now [] s h = refl
fire_all now (m ∷ ms) s (p, h) =
    let e : leb m.due_ms now ≡ true = ground arith in
    rw (e, fire) (fire_all now ms (dismiss m.toast_id s) h)

-- A toast without a timer is not on display.
IsTimed-nil : (ms : List Timer) (ts : List Toast) → ms ≡ [] → IsTimed ms ts → ts ≡ []
IsTimed-nil ms [] e h = refl
IsTimed-nil ms (t ∷ ts) e (p, h) = ground arith

pub record Inv (limit : ℕ) (b : Browser) : Type 0 where
  pub unique : IsUnique b.service
  pub timed : IsTimed b.timers b.service.toasts
  pub bounded : DueBy (b.now_ms + limit) b.timers

-- No toast is shown for longer than the limit.
abbrev pub Within : ℕ → Event → Type 0
Within limit (shows m ty d) = d ≤ limit
Within limit (fails e) = 5000 ≤ limit
Within limit _ = Unit

show-Inv :
    (limit : ℕ) (m : String) (ty : ToastType) (d : ℕ) (b : Browser)
    → d ≤ limit
    → Inv limit b
    → Inv limit (show m ty d b)
unfolding show
show-Inv limit m ty d b lt h = record {
  unique = show-IsUnique m ty d b h.unique;
  timed =
      All-append _ b.service.toasts _ (All-mono b.service.toasts (λ t p. ground arith) h.timed)
        (ground arith, tt);
  bounded = (omega arith, h.bounded);
}

advance-Inv : (limit ms : ℕ) (b : Browser) → Inv limit b → Inv limit (advance ms b)
unfolding advance pending
advance-Inv limit ms b h =
    let now = b.now_ms + ms in
    record {
      unique = fire-IsUnique now [] b.timers b.service h.unique;
      timed = fire-Covered now [] b.timers b.service (All-mono b.service.toasts (λ t p. p) h.timed);
      bounded =
          fire-DueBy now (now + limit) [] b.timers b.service tt
            (All-mono b.timers (λ t p. omega arith) h.bounded);
    }

step-Inv :
    (limit : ℕ) (e : Event) (b : Browser) → Within limit e → Inv limit b → Inv limit (step e b)
unfolding step handle_error dismiss
step-Inv limit (shows m ty d) b w h = show-Inv limit m ty d b w h
step-Inv limit (fails e) b w h = show-Inv limit _ _ 5000 b w h
step-Inv limit (dismisses id) b w h = record {
  unique = dismiss-IsUnique id b.service h.unique;
  timed = All-filter _ (λ t. not (t.id == id)) b.service.toasts h.timed;
  bounded = h.bounded;
}
step-Inv limit (passes ms) b w h = advance-Inv limit ms b h

run-Inv_from :
    (limit : ℕ) (es : List Event) (b : Browser)
    → All (Within limit) es
    → Inv limit b
    → Inv limit (run es b)
unfolding run
run-Inv_from limit [] b w h = h
run-Inv_from limit (e ∷ es) b (w, ws) h =
    run-Inv_from limit es (step e b) ws (step-Inv limit e b w h)

run-page_loaded :
    (limit : ℕ) (es : List Event) → All (Within limit) es → Inv limit (run es page_loaded)
run-page_loaded limit es w =
    run-Inv_from limit es page_loaded w
      (record { unique = page_loaded-IsUnique; timed = tt; bounded = tt })

-- Whatever toasts were shown and dismissed, by calls and by errors, no two on display have the same id,
-- and if none of them was to be shown for longer than a limit, no toast is left once the limit has
-- passed without a new one.
pub advance-run :
    (limit : ℕ) (es : List Event)
    → All (Within limit) es
    → ((i : ℕ) → occurrences i (run es page_loaded).service.toasts ≤ 1)
      × ((advance limit (run es page_loaded)).service.toasts ≡ [])
unfolding advance pending
advance-run limit es w =
    let h = run-page_loaded limit es w in
    let b = run es page_loaded in
    let none_left = fire_all (b.now_ms + limit) b.timers b.service h.bounded in
    let covered = fire-Covered (b.now_ms + limit) [] b.timers b.service h.timed in
    (h.unique.once, IsTimed-nil _ _ none_left covered)
