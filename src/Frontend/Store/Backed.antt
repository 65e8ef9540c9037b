-- ===== src/Frontend/Store/Backed.antt =====
-- The credit store of the web application against the credit service of the API.
use carbonchain.Prelude.{String, ◌≡◌, refl, ◌⊎◌, inl, inr, some, List, [], ◌===◌, if◌then◌else◌}
use carbonchain.Prelude.Results.{ok, err, Exception, Result-cases}
use carbonchain.Shared.{CreditMetadata}
use carbonchain.Credits.Service.{Platform, State, get_credit, Call, run}
use carbonchain.Credits.Service.Ids.{nil-IsKeyed, IsCachedOwn, run-IsKeyed, get_credit-id}
use carbonchain.Frontend.{over_http, error}
use carbonchain.Frontend.Store.{CreditStore, end_load_one}
use carbonchain.Frontend.Store.Merging.{find_credit, find-merge}

module _ (p : Platform) where
  -- The answer is a credit, which the store then has under its id beside the credits that it had.
  pub record Loaded (t : State p) (id : String) (before after : CreditStore) : Type 0 where
    pub credit : CreditMetadata
    pub is_answer : (get_credit p id t).0 ≡ ok credit
    pub is_found :
        (k : String)
        → find_credit k after.credits
          ≡ (if id === k then some credit else find_credit k before.credits)

  -- The answer is an exception, of which the store shows its own message.
  pub record NotLoaded (t : State p) (id : String) (before after : CreditStore) : Type 0 where
    pub exception : Exception
    pub is_thrown : (get_credit p id t).0 ≡ err exception
    pub is_kept : after.credits ≡ before.credits
    pub is_error : after.loading_state ≡ error

  -- After any calls of the credit service from an empty index, and unless Redis holds a credit of
  -- another id for the one that is asked for, the store that loads a credit then finds under its id
  -- what the API answered and under every other id what it found before; where the API throws, the
  -- credits of the store stay and its state is an error.
  pub end_load_one-get_credit :
      (cs : List (Call p)) (s : State p) (id : String) (store : CreditStore)
      → s.repo ≡ []
      → IsCachedOwn p id (run p cs s)
      → Loaded
          (run p cs s)
          id
          store
          (end_load_one id (over_http (get_credit p id (run p cs s)).0) store)
        ⊎ NotLoaded
            (run p cs s)
            id
            store
            (end_load_one id (over_http (get_credit p id (run p cs s)).0) store)
  unfolding end_load_one
  end_load_one-get_credit cs s id store empty own =
      let t = run p cs s in
      elim (Result-cases (get_credit p id t).0) [
        | inl (c, e) ↦
            let same = get_credit-id p id t c (run-IsKeyed p cs s (rw empty nil-IsKeyed)) own e in
            inl (record {
              credit = c;
              is_answer = e;
              is_found = λ k. rw e (find-merge k id c store.credits same);
            })
        | inr (x, e) ↦
            inr (record { exception = x; is_thrown = e; is_kept = rw e refl; is_error = rw e refl })
      ]
