-- ===== src/Frontend/Toasts.antt =====
-- frontend/src/app/core/services/toast.service.ts, and the toast that
-- frontend/src/app/core/handlers/global-error.handler.ts shows. The browser's timers are a list, and time
-- passes by events; a timer that is due runs its callback.
pub mod Ids
pub mod Expiry
mod Tests
use carbonchain.Prelude.{
  ℕ, ◌+◌, String, Bool, Option, none, some, not, List, [], ◌∷◌, ◌++◌, leb, ◌==◌, filter,
  if◌then◌else◌,
}
use carbonchain.Frontend.{Rejection, message_of}

pub data ToastType : Type 0 where
  error info success : ToastType

pub record Toast : Type 0 where
  pub id : ℕ
  pub message : String
  pub type : ToastType

pub record ToastService : Type 0 where
  pub counter : ℕ
  pub toasts : List Toast

-- A call of `setTimeout` whose callback has not run: it dismisses the toast when the time has come.
pub record Timer : Type 0 where
  pub toast_id : ℕ
  pub due_ms : ℕ

pub record Browser : Type 0 where
  pub service : ToastService
  pub timers : List Timer
  pub now_ms : ℕ

abbrev pub page_loaded : Browser
page_loaded = record { service = record { counter = 0; toasts = [] }; timers = []; now_ms = 0 }

pub dismiss : ℕ → ToastService → ToastService
dismiss id s = record s { toasts = filter (λ t. not (t.id == id)) s.toasts }

-- `show`; its parameters after the message have the defaults `error` and 5000.
pub show : String → ToastType → ℕ → Browser → Browser
show message type duration_ms b =
    let id = b.service.counter + 1 in
    record b {
      service = record {
        counter = id;
        toasts = b.service.toasts ++ record { id = id; message = message; type = type } ∷ [];
      };
      timers = record { toast_id = id; due_ms = b.now_ms + duration_ms } ∷ b.timers;
    }

-- The toast of `handleError`.
pub handle_error : Rejection → Browser → Browser
handle_error e b = show (message_of "An unexpected error occurred." e) error 5000 b

-- The timers that are due at a time run their callbacks; the others stay.
pub fire : ℕ → List Timer → List Timer → ToastService → ToastService × List Timer
fire now kept [] s = (s, kept)
fire now kept (m ∷ ms) s =
    if leb m.due_ms now then fire now kept ms (dismiss m.toast_id s) else fire now (m ∷ kept) ms s

pub advance : ℕ → Browser → Browser
unfolding fire
advance ms b =
    let now = b.now_ms + ms in
    let (service, timers) = fire now [] b.timers b.service in
    record { service = service; timers = timers; now_ms = now }

pub data Event : Type 0 where
  shows : String → ToastType → ℕ → Event
  fails : Rejection → Event
  dismisses : ℕ → Event
  passes : ℕ → Event

pub step : Event → Browser → Browser
step (shows message type duration_ms) b = show message type duration_ms b
step (fails e) b = handle_error e b
step (dismisses id) b = record b { service = dismiss id b.service }
step (passes ms) b = advance ms b

pub run : List Event → Browser → Browser
run [] b = b
run (e ∷ es) b = run es (step e b)
