-- ===== src/Throttler/Tests.antt =====
-- The throttler at concrete inputs.
use carbonchain.Prelude.{ℕ, String, ◌≡◌, refl, none, some, List, [], ◌∷◌, arith}
use carbonchain.Prelude.JsMap.{JsMap}
use carbonchain.Throttler.{ThrottleOptions, HitRecord, Request, throttle_key, can_activate}
use carbonchain.Throttler.Window.{Event, admitted, admitted_window}

abbrev one_a_minute : ThrottleOptions
one_a_minute = record { limit = 1; ttl = 60000 }

abbrev from : String → String → Request
from ip path = record { forwarded_for = some ip; remote_address = some "10.0.0.1"; path = path }

abbrev at : String → ℕ → Event
at ip now = record {
  on_handler = none;
  on_class = some one_a_minute;
  req = from ip "/credits/issue";
  now = now;
}

abbrev key : String
key = "1.2.3.4:/credits/issue"

throttle_key_forwarded : throttle_key (from " 1.2.3.4 , 9.9.9.9" "/credits/issue") ≡ key
unfolding throttle_key
throttle_key_forwarded = refl

throttle_key_unknown :
    throttle_key (record { forwarded_for = none; remote_address = none; path = "/a" })
    ≡ "unknown:/a"
unfolding throttle_key
throttle_key_unknown = refl

abbrev later : List Event
later = at "5.6.7.8" 2 ∷ at "1.2.3.4" 3 ∷ at "1.2.3.4" 60001 ∷ []

admitted_run : admitted key (at "1.2.3.4" 1 ∷ later) [] ≡ 1
unfolding admitted can_activate throttle_key
admitted_run = refl

admitted_window_example : admitted key (at "1.2.3.4" 1 ∷ later) [] ≡ 1
unfolding throttle_key
admitted_window_example =
    admitted_window one_a_minute key (at "1.2.3.4" 1) later [] refl refl (λ r h. cc)
      ((λ h. (refl, omega arith)), ((λ h. (refl, omega arith)), ((λ h. (refl, omega arith)), tt)))

abbrev used_store : JsMap HitRecord
used_store = (key, record { count = 1; reset_at = 60001 }) ∷ []
