-- ===== src/Frontend/Preferences/Tests.antt =====
-- The preferences over a map of texts, with files of one entry.
use carbonchain.Prelude.{String, ◌≡◌, refl, true, false, some, [], ◌∷◌}
use carbonchain.Prelude.JsMap.{JsMap, get, set, get-set_self, get-set_ne}
use carbonchain.Prelude.Results.{ok, err, error}
use carbonchain.Frontend.{fulfilled}
use carbonchain.Frontend.Preferences.{
  LocalStorage, LocalStorageLaws, Locale, en, es, fr, load_preference, toggle,
  new_translation_service, end_init, init, set_locale, translate, App, start_app, toggles, chooses,
  act, run,
}
use carbonchain.Frontend.Preferences.Reload.{start_app-run}

abbrev storage : LocalStorage
storage = record { Store = JsMap String; get_item = get; set_item = set }

abbrev storage_laws : LocalStorageLaws storage
storage_laws = record {
  get_item-set_item_self = λ k v s. get-set_self k v s;
  get_item-set_item_ne = λ k j v s h. get-set_ne k j v s h;
}

abbrev files : Locale → JsMap String
files en = ("wallet.connect", "Connect") ∷ []
files es = ("wallet.connect", "Conectar") ∷ []
files fr = []

abbrev unknown : JsMap String
unknown = ("locale", "de") ∷ []

preferences : Unit {0}
unfolding load_preference toggle new_translation_service end_init init set_locale translate
    start_app act run
preferences = tt

-- Light after two clicks, in French, where the key is missing.
two_clicks :
    (run storage (toggles ∷ chooses fr ∷ toggles ∷ []) (record {
      theme = record { dark = false; dark_class = false };
      i18n = record { cache = []; translations = some []; locale = "en" };
      store = [];
    })).store
    ≡ ("theme", "light") ∷ ("locale", "fr") ∷ []
unfolding preferences
two_clicks = refl

start_app-run_example :
    (w : App storage) × (start_app storage (λ l. fulfilled (files l)) true unknown ≡ fulfilled w)
    × (start_app storage (λ l. fulfilled (files l)) true (run storage (toggles ∷ []) w).store
        ≡ fulfilled (run storage (toggles ∷ []) w))
    × (translate storage w.i18n "wallet.connect"
        ≡ err (error "Cannot read properties of undefined"))
    × (translate storage
          (act storage (chooses es) (run storage (toggles ∷ []) w)).i18n
          "wallet.connect"
        ≡ ok "Conectar")
start_app-run_example =
    start_app-run storage storage_laws true files unknown (toggles ∷ []) es "wallet.connect"
