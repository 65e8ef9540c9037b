-- ===== src/Credits/Service/ReadOnly.antt =====
-- Reading a credit changes neither the index nor, where reads of the contract change nothing, the chain.
use carbonchain.Prelude.{String, ◌+++◌, ◌≡◌, refl, ◌∙◌, inl, inr, List, [], ◌∷◌, Option-cases}
use carbonchain.Prelude.Results.{Result, ok, err, not_found, or_throw, and_then, Io}
use carbonchain.Shared.{CreditMetadata}
use carbonchain.External.{Sdk, Stellar, bytes}
use carbonchain.Cache.{cache_get}
use carbonchain.Credits.Repository.{find_by_id}
use carbonchain.Credits.Service.{
  Platform, State, on_chain, map_to_credit_metadata, remember, fetch_credit, get_credit, credit_key,
  entity_to_metadata,
}

-- A simulated call leaves the chain as it was.
pub record ReadsOnly (sdk : Sdk) (stellar : Stellar sdk) : Type 0 where
  pub read_contract-chain :
      (contract method : String) (args : List sdk.ScVal) (c : stellar.Chain)
      → (stellar.read_contract contract method args c).1 ≡ c

module _ (p : Platform) (reads : ReadsOnly p.sdk p.stellar) where
  -- Same index and same chain.
  abbrev pub Keeps : State p → State p → Type 0
  Keeps s t = (t.repo ≡ s.repo) × (t.chain ≡ s.chain)

  pub Keeps-and_then :
      {A B : Type 0} (s : State p) (r : Result A × State p) (k : A → Io (State p) B)
      → Keeps s r.1
      → ((a : A) (t : State p) → Keeps t (k a t).1)
      → Keeps s (and_then r k).1
  Keeps-and_then s (err e, t) k h g = h
  Keeps-and_then s (ok a, t) k (h1, h2) g = let (g1, g2) = g a t in (g1 ∙ h1, g2 ∙ h2)

  read_on_chain :
      (method : String) (args : List p.sdk.ScVal) (s : State p)
      → Keeps s (on_chain p (p.stellar.read_contract p.contract_id method args) s).1
  unfolding on_chain
  read_on_chain method args s = (refl, reads.read_contract-chain p.contract_id method args s.chain)

  remember-Keeps : (id : String) (m : CreditMetadata) (s : State p) → Keeps s (remember p id m s).1
  unfolding remember
  remember-Keeps id m s = (refl, refl)

  fetch_credit-Keeps : (id : String) (s : State p) → Keeps s (fetch_credit p id s).1
  unfolding fetch_credit
  fetch_credit-Keeps id s =
      let missing = not_found ("Credit with ID " +++ (id +++ " not found on-chain")) in
      Keeps-and_then s (p.sdk.native_to_sc_val (bytes (p.sdk.from_hex id)) "bytes", s) _
        (refl, refl)
        λ arg s1.
          Keeps-and_then s1
            (on_chain p (p.stellar.read_contract p.contract_id "get_credit" (arg ∷ [])) s1) _
            (read_on_chain "get_credit" (arg ∷ []) s1)
            λ retval s2.
              Keeps-and_then s2 (or_throw retval missing, s2) _ (refl, refl)
                λ value s3.
                  Keeps-and_then s3 (p.sdk.sc_val_to_native value, s3) _ (refl, refl)
                    λ native s4.
                      Keeps-and_then s4 (map_to_credit_metadata p id native, s4) _ (refl, refl)
                        λ metadata s5. remember-Keeps id metadata s5

  pub get_credit-Keeps : (id : String) (s : State p) → Keeps s (get_credit p id s).1
  unfolding get_credit
  get_credit-Keeps id s =
      let r = cache_get p.redis p.credit_json p.cache (credit_key id) s.cached in
      let s1 : State p = record s { cached = r.1 } in
      elim (Option-cases r.0) [
        | inr (m, e) ↦ rw (e, get_credit) (refl, refl)
        | inl e ↦ elim (Option-cases (find_by_id id s.repo)) [
          | inr (c, f) ↦ rw (e, f, get_credit) (remember-Keeps id (entity_to_metadata c) s1)
          | inl f ↦ rw (e, f, get_credit) (fetch_credit-Keeps id s1)
        ]
      ]
