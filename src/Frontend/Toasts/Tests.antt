-- ===== src/Frontend/Toasts/Tests.antt =====
-- Two toasts, of which the first is dismissed and the second expires.
use carbonchain.Prelude.{ℕ, ◌≤◌, ◌≡◌, refl, List, [], ◌∷◌, arith}
use carbonchain.Frontend.{other, message_of}
use carbonchain.Frontend.Toasts.{
  error, info, page_loaded, dismiss, show, handle_error, fire, advance, Event, shows, fails,
  dismisses, passes, step, run,
}
use carbonchain.Frontend.Toasts.Ids.{occurrences}
use carbonchain.Frontend.Toasts.Expiry.{advance-run}

abbrev events : List Event
events = shows "saved" info 100 ∷ fails other ∷ passes 10 ∷ dismisses 1 ∷ []

run-events :
    (run events page_loaded).service.toasts
    ≡ record { id = 2; message = "An unexpected error occurred."; type = error } ∷ []
unfolding run step show handle_error advance fire dismiss message_of
run-events = refl

advance-run_example :
    ((i : ℕ) → occurrences i (run events page_loaded).service.toasts ≤ 1)
    × ((advance 5000 (run events page_loaded)).service.toasts ≡ [])
advance-run_example = advance-run 5000 events (omega arith, (omega arith, (tt, (tt, tt))))
