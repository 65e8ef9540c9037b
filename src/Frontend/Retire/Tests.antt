-- ===== src/Frontend/Retire/Tests.antt =====
-- The form at concrete answers.
use carbonchain.Prelude.{◌≡◌, refl}
use carbonchain.Frontend.{rejected, an_error}
use carbonchain.Frontend.Retire.{RetireForm, new_form, go_confirm, reset, submit}

abbrev filled_in : RetireForm
filled_in = record new_form { credit_id = "0a"; reason = "offset" }

-- A form that is reset after an error is the new form again.
reset_after_error :
    reset (submit (λ dto token. rejected (an_error "down")) "GBUYER" "t" (go_confirm filled_in))
    ≡ new_form
unfolding reset submit go_confirm
reset_after_error = refl
