-- ===== src/Frontend/Preferences.antt =====
-- frontend/src/app/core/services/theme.service.ts and translation.service.ts, and their start by
-- app.config.ts and app.ts. `localStorage`, the answers to `fetch` and what the media query prefers are
-- parameters.
pub mod Reload
mod Tests
use carbonchain.Prelude.{
  String, Bool, true, false, not, Option, none, some, List, [], ◌∷◌, ◌≡◌, ◌≢◌, ◌===◌, is_empty, map,
  if◌then◌else◌,
}
use carbonchain.Prelude.JsMap.{JsMap, get, set}
use carbonchain.Prelude.Results.{Result, ok, err, error}
use carbonchain.Frontend.{Outcome, fulfilled, rejected, promise_all}

pub record LocalStorage : Type 1 where
  pub Store : Type 0
  pub get_item : String → Store → Option String
  pub set_item : String → String → Store → Store

-- The documented behaviour of `localStorage` while it is not full.
pub record LocalStorageLaws (st : LocalStorage) : Type 0 where
  pub get_item-set_item_self :
      (k v : String) (s : st.Store) → st.get_item k (st.set_item k v s) ≡ some v
  pub get_item-set_item_ne :
      (k j v : String) (s : st.Store) → k ≢ j → st.get_item j (st.set_item k v s) ≡ st.get_item j s

pub data Locale : Type 0 where
  en es fr : Locale

abbrev pub code : Locale → String
code en = "en"
code es = "es"
code fr = "fr"

abbrev pub all_locales : List Locale
all_locales = en ∷ es ∷ fr ∷ []

-- The signal of the theme, and whether the root element has the class `dark`.
pub record ThemeService : Type 0 where
  pub dark : Bool
  pub dark_class : Bool

-- `locale` is the text that was stored, whatever it is; `translations` may be undefined.
pub record TranslationService : Type 0 where
  pub cache : JsMap (JsMap String)
  pub translations : Option (JsMap String)
  pub locale : String

module _ (st : LocalStorage) where
  open st use {Store, get_item, set_item}

  -- The stored choice, if it is a text that is not empty.
  abbrev pub is_dark : Bool → Option String → Bool
  is_dark prefers_dark none = prefers_dark
  is_dark prefers_dark (some s) = if is_empty s then prefers_dark else s === "dark"

  unfoldable pub load_preference : Bool → Store → ThemeService
  load_preference prefers_dark s =
      let dark = is_dark prefers_dark (get_item "theme" s) in
      record { dark = dark; dark_class = dark }

  abbrev pub theme_text : Bool → String
  theme_text true = "dark"
  theme_text false = "light"

  unfoldable pub toggle : ThemeService → Store → ThemeService × Store
  toggle t s =
      let next = not t.dark in
      (record { dark = next; dark_class = next }, set_item "theme" (theme_text next) s)

  abbrev pub or_en : Option String → String
  or_en none = "en"
  or_en (some l) = l

  unfoldable pub new_translation_service : Store → TranslationService
  new_translation_service s = record {
    cache = [];
    translations = some [];
    locale = or_en (get_item "locale" s);
  }

  -- The three files in the cache. They may come in any order, which changes no entry.
  abbrev pub cached : List (JsMap String) → JsMap (JsMap String)
  cached (a ∷ b ∷ c ∷ []) = set "fr" c (set "es" b (set "en" a []))
  cached _ = []

  -- `init` after the files came.
  unfoldable pub end_init :
      Outcome (List (JsMap String)) → TranslationService → Outcome TranslationService
  end_init (rejected e) t = rejected e
  end_init (fulfilled files) t =
      fulfilled (record t { cache = cached files; translations = get t.locale (cached files) })

  unfoldable pub init :
      (Locale → Outcome (JsMap String)) → TranslationService → Outcome TranslationService
  init fetch t = end_init (promise_all (map fetch all_locales)) t

  abbrev pub or_old : Option (JsMap String) → Option (JsMap String) → Option (JsMap String)
  or_old none old = old
  or_old (some m) old = some m

  unfoldable pub set_locale : Locale → TranslationService → Store → TranslationService × Store
  set_locale l t s = (
    record t { translations = or_old (get (code l) t.cache) t.translations; locale = code l },
    set_item "locale" (code l) s,
  )

  abbrev pub or_key : String → Option String → String
  or_key key none = key
  or_key key (some s) = s

  -- Reading a property of `undefined` throws.
  unfoldable pub translate : TranslationService → String → Result String
  translate t key = elim t.translations [
    | none ↦ err (error "Cannot read properties of undefined")
    | some m ↦ ok (or_key key (get key m))
  ]

  -- The application with what it has stored.
  pub record App : Type 0 where
    pub theme : ThemeService
    pub i18n : TranslationService
    pub store : Store

  abbrev started : Bool → Store → Outcome TranslationService → Outcome App
  started prefers_dark s (rejected e) = rejected e
  started prefers_dark s (fulfilled t) =
      fulfilled (record { theme = load_preference prefers_dark s; i18n = t; store = s })

  -- The initializer of app.config.ts: without the translations the application does not start.
  unfoldable pub start_app : (Locale → Outcome (JsMap String)) → Bool → Store → Outcome App
  start_app fetch prefers_dark s = started prefers_dark s (init fetch (new_translation_service s))

  pub data Action : Type 0 where
    toggles : Action
    chooses : Locale → Action

  unfoldable pub act : Action → App → App
  act toggles a = let (t, s) = toggle a.theme a.store in record a { theme = t; store = s }
  act (chooses l) a = let (t, s) = set_locale l a.i18n a.store in record a { i18n = t; store = s }

  pub run : List Action → App → App
  run [] a = a
  run (x ∷ xs) a = run xs (act x a)
