-- ===== src/Routes/Sample.antt =====
-- A router for the examples, whose URLs are lists of segments.
use carbonchain.Prelude.{refl, List, String, find}
use carbonchain.Routes.Dispatch.{answers, Router, RouterLaws}

abbrev pub router : Router
router = record { Url = List String; url = λ vs. vs; dispatch = λ rs m vs. find (answers m vs) rs }

abbrev pub router_laws : RouterLaws router
router_laws = record { dispatch_first = λ rs m vs plain. refl }
