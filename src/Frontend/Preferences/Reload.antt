-- ===== src/Frontend/Preferences/Reload.antt =====
-- What of the theme and of the language is still there when the application is opened again.
use carbonchain.Prelude.{
  String, ◌≡◌, ◌≢◌, refl, ap, sym, ◌∙◌, Bool, true, false, not, some, List, [], ◌∷◌, ===_iff, ◌===◌,
  if◌then◌else◌, arith,
}
use carbonchain.Prelude.JsMap.{JsMap, get}
use carbonchain.Prelude.Results.{Result, ok, err, error}
use carbonchain.Frontend.{fulfilled}
use carbonchain.Frontend.Preferences.{
  LocalStorage, LocalStorageLaws, Locale, en, es, fr, code, load_preference, theme_text, toggle,
  or_en, cached, new_translation_service, end_init, init, set_locale, or_key, translate, App,
  start_app, Action, toggles, chooses, act, run,
}

locale_ne_theme : ◌≢◌ {A = String} "locale" "theme"
locale_ne_theme e = let h = (===_iff "locale" "theme").1 e in cc

theme_ne_locale : ◌≢◌ {A = String} "theme" "locale"
theme_ne_locale e = locale_ne_theme (sym e)

module _ (st : LocalStorage) (laws : LocalStorageLaws st) (prefers_dark : Bool)
    (files : Locale → JsMap String) where
  abbrev all_files : JsMap (JsMap String)
  all_files = cached st (files en ∷ files es ∷ files fr ∷ [])

  -- What is in memory is what would be read again.
  record IsStored (a : App st) : Type 0 where
    theme : a.theme ≡ load_preference st prefers_dark a.store
    locale : a.i18n.locale ≡ or_en st (st.get_item "locale" a.store)
    cache : a.i18n.cache ≡ all_files
    translations : a.i18n.translations ≡ get a.i18n.locale all_files

  file-code : (l : Locale) → get (code l) all_files ≡ some (files l)
  file-code en = refl
  file-code es = refl
  file-code fr = refl

  load_preference-toggle :
      (next : Bool) (s : st.Store)
      → load_preference st prefers_dark (st.set_item "theme" (theme_text st next) s)
        ≡ record { dark = next; dark_class = next }
  unfolding load_preference
  load_preference-toggle true s = rw (laws.get_item-set_item_self "theme" "dark" s) refl
  load_preference-toggle false s = rw (laws.get_item-set_item_self "theme" "light" s) refl

  load_preference-locale :
      (l : String) (s : st.Store)
      → load_preference st prefers_dark (st.set_item "locale" l s)
        ≡ load_preference st prefers_dark s
  unfolding load_preference
  load_preference-locale l s =
      rw (laws.get_item-set_item_ne "locale" "theme" l s locale_ne_theme) refl

  act-IsStored : (x : Action st) (a : App st) → IsStored a → IsStored (act st x a)
  unfolding act toggle set_locale
  act-IsStored toggles a i = record {
    theme = sym (load_preference-toggle (not a.theme.dark) a.store);
    locale =
        i.locale
        ∙ ap (or_en st)
            (sym (laws.get_item-set_item_ne "theme" "locale" _ a.store theme_ne_locale));
    cache = i.cache;
    translations = i.translations;
  }
  act-IsStored (chooses l) a i = record {
    theme = i.theme ∙ sym (load_preference-locale (code l) a.store);
    locale = ap (or_en st) (sym (laws.get_item-set_item_self "locale" (code l) a.store));
    cache = i.cache;
    translations = rw (i.cache, file-code l) refl;
  }

  run-IsStored : (xs : List (Action st)) (a : App st) → IsStored a → IsStored (run st xs a)
  unfolding run
  run-IsStored [] a i = i
  run-IsStored (x ∷ xs) a i = run-IsStored xs (act st x a) (act-IsStored x a i)

  -- The application as it opens.
  abbrev opened : st.Store → App st
  opened s = record {
    theme = load_preference st prefers_dark s;
    i18n = record {
      cache = all_files;
      translations = get (or_en st (st.get_item "locale" s)) all_files;
      locale = or_en st (st.get_item "locale" s);
    };
    store = s;
  }

  start_app-opened :
      (s : st.Store) → start_app st (λ l. fulfilled (files l)) prefers_dark s ≡ fulfilled (opened s)
  unfolding start_app init end_init new_translation_service
  start_app-opened s = refl

  opened-IsStored : (s : st.Store) → IsStored (opened s)
  opened-IsStored s = record { theme = refl; locale = refl; cache = refl; translations = refl }

  opened-store : (a : App st) → IsStored a → opened a.store ≡ a
  opened-store a i = ground arith

  chosen-translate :
      (l : Locale) (a : App st) (key : String)
      → IsStored a
      → translate st (act st (chooses l) a).i18n key ≡ ok (or_key st key (get key (files l)))
  unfolding act set_locale translate
  chosen-translate l a key i = rw (i.cache, file-code l) refl

  -- What a key stands for in a language that may be none.
  abbrev pub text_in : String → String → Result String
  text_in l key =
      if "en" === l
      then ok (or_key st key (get key (files en)))
      else if "es" === l
      then ok (or_key st key (get key (files es)))
      else if "fr" === l
      then ok (or_key st key (get key (files fr)))
      else err (error "Cannot read properties of undefined")

  opened-translate :
      (s : st.Store) (key : String)
      → translate st (opened s).i18n key ≡ text_in (or_en st (st.get_item "locale" s)) key
  unfolding translate
  opened-translate s key = ground arith

  -- If the three files of translations can be fetched, the application starts, whatever is stored. After any
  -- changes of theme and language it has the same theme, class, language and translations when it is
  -- opened again with the same preference of the browser. It shows the texts of the stored language, but
  -- every translation throws if what is stored is no language; when a language is chosen, it shows the
  -- texts of its file, and a key that is missing there as it is.
  pub start_app-run :
      (s : st.Store) (xs : List (Action st)) (l : Locale) (key : String)
      → (w : App st) × (start_app st (λ l. fulfilled (files l)) prefers_dark s ≡ fulfilled w)
        × (start_app st (λ l. fulfilled (files l)) prefers_dark (run st xs w).store
            ≡ fulfilled (run st xs w))
        × (translate st w.i18n key ≡ text_in (or_en st (st.get_item "locale" s)) key)
        × (translate st (act st (chooses l) (run st xs w)).i18n key
            ≡ ok (or_key st key (get key (files l))))
  start_app-run s xs l key =
      let i = run-IsStored xs (opened s) (opened-IsStored s) in
      (
        opened s,
        start_app-opened s,
        start_app-opened (run st xs (opened s)).store ∙ ap fulfilled (opened-store _ i),
        opened-translate s key,
        chosen-translate l (run st xs (opened s)) key i,
      )
