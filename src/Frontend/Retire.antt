-- ===== src/Frontend/Retire.antt =====
-- frontend/src/app/retire/retire.component.ts: the form that retires a credit, in four steps. It is shown
-- to users who are logged in; their key and token are arguments. Tonnes are whole numbers of kilograms.
pub mod Refused
mod Tests
use carbonchain.Prelude.{ℕ, String, Bool, true, false, Option, none, some}
use carbonchain.Prelude.Decimal.{decimal}
use carbonchain.Retirement.Service.{RetireDto}
use carbonchain.Frontend.{Outcome, fulfilled, rejected, message_of}

pub data WizardStep : Type 0 where
  form confirm success failed : WizardStep

pub record RetireForm : Type 0 where
  pub credit_id : String
  pub tonnes : ℕ
  pub reason : String
  pub step : WizardStep
  pub submitting : Bool
  pub retirement_id : Option String
  pub error_msg : Option String

abbrev pub new_form : RetireForm
new_form = record {
  credit_id = "";
  tonnes = 1000000;
  reason = "";
  step = form;
  submitting = false;
  retirement_id = none;
  error_msg = none;
}

pub go_confirm : RetireForm → RetireForm
go_confirm f = record f { step = confirm }

-- The button that goes back.
pub go_back : RetireForm → RetireForm
go_back f = record f { step = form }

-- The body of the request.
pub retire_body : String → RetireForm → RetireDto
retire_body buyer f = record {
  buyer_public_key = buyer;
  credit_id = f.credit_id;
  tonnes = decimal f.tonnes;
  reason = f.reason;
}

-- What `submit` does with the answer; the `finally` ends the submission.
pub end_submit : Outcome String → RetireForm → RetireForm
end_submit (fulfilled id) f = record f {
  retirement_id = some id;
  step = success;
  submitting = false;
}
end_submit (rejected e) f = record f {
  error_msg = some (message_of "Unknown error." e);
  step = failed;
  submitting = false;
}

-- `post` is `retireCredit` of the API service, by body and token.
pub submit : (RetireDto → String → Outcome String) → String → String → RetireForm → RetireForm
unfolding retire_body end_submit
submit post buyer token f =
    end_submit (post (retire_body buyer f) token) (record f { submitting = true })

pub reset : RetireForm → RetireForm
reset f = record f {
  credit_id = "";
  tonnes = 1000000;
  reason = "";
  retirement_id = none;
  error_msg = none;
  step = form;
}
