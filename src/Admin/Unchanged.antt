-- ===== src/Admin/Unchanged.antt =====
-- What the admin operations change.
use carbonchain.Prelude.{String, ◌+++◌, ◌≡◌, refl, ap, ◌∙◌, true, List, [], ◌∷◌, find, ◌===◌}
use carbonchain.Prelude.Results.{
  Result, ok, err, not_found, Io, and_then, handle, pure, lift, or_throw,
}
use carbonchain.Verifiers.{infos_of, read_verifiers, list_verifiers, get_verifier}
use carbonchain.Credits.Service.{Platform, State, get_credit}
use carbonchain.Credits.Service.ReadOnly.{ReadsOnly, Keeps, Keeps-and_then, get_credit-Keeps}
use carbonchain.Admin.{
  on_chain, get_stats, register_verifier, suspend_verifier, configure_verifier, flag_credit, Call,
  stats, register, suspend, flag, configure, step, run,
}

module _ (p : Platform) (reads : ReadsOnly p.sdk p.stellar) where
  open p use {sdk, stellar, contract_id}

  and_then-chain :
      {A B : Type 0} (r : Result A × stellar.Chain) (k : A → Io stellar.Chain B)
      → ((a : A) (c : stellar.Chain) → (k a c).1 ≡ c)
      → (and_then r k).1 ≡ r.1
  and_then-chain (ok a, c) k h = h a c
  and_then-chain (err e, c) k h = refl

  handle-chain :
      {A : Type 0} (r : Result (List A) × stellar.Chain) → (handle r (λ e. pure [])).1 ≡ r.1
  handle-chain (ok a, c) = refl
  handle-chain (err e, c) = refl

  list_verifiers-chain : (c : stellar.Chain) → (list_verifiers sdk stellar contract_id c).1 ≡ c
  unfolding list_verifiers
  list_verifiers-chain c =
      handle-chain (read_verifiers sdk stellar contract_id c)
      ∙ and_then-chain (stellar.read_contract contract_id "list_verifiers" [] c)
          (λ retval. lift (infos_of sdk stellar contract_id retval)) (λ a d. refl)
      ∙ reads.read_contract-chain contract_id "list_verifiers" [] c

  get_verifier-chain :
      (id : String) (c : stellar.Chain) → (get_verifier sdk stellar contract_id id c).1 ≡ c
  unfolding get_verifier
  get_verifier-chain id c =
      and_then-chain (list_verifiers sdk stellar contract_id c)
        (λ vs. lift (
          or_throw (find (λ v. v.address === id) vs)
            (not_found ("Verifier " +++ (id +++ " not found")))))
        (λ a d. refl)
      ∙ list_verifiers-chain c

  step-Keeps : (c : Call p) (s : State p) → Keeps p reads s (step p c s)
  unfolding step get_stats register_verifier suspend_verifier configure_verifier flag_credit
  step-Keeps stats s =
      Keeps-and_then p reads s (on_chain p (list_verifiers sdk stellar contract_id) s) _
        (refl, list_verifiers-chain s.chain) λ a t. (refl, refl)
  step-Keeps (register address) s = (refl, refl)
  step-Keeps (suspend id) s =
      Keeps-and_then p reads s (on_chain p (get_verifier sdk stellar contract_id id) s) _
        (refl, get_verifier-chain id s.chain) λ a t. (refl, refl)
  step-Keeps (configure id capabilities) s =
      Keeps-and_then p reads s (on_chain p (get_verifier sdk stellar contract_id id) s) _
        (refl, get_verifier-chain id s.chain) λ a t. (refl, refl)
  step-Keeps (flag id) s =
      Keeps-and_then p reads s (get_credit p id s) _ (get_credit-Keeps p reads id s)
        λ a t. (refl, refl)

  run-Keeps : (cs : List (Call p)) (s : State p) → Keeps p reads s (run p cs s)
  unfolding run
  run-Keeps [] s = (refl, refl)
  run-Keeps (c ∷ cs) s =
      let (h1, h2) = step-Keeps c s in
      let (k1, k2) = run-Keeps cs (step p c s) in (k1 ∙ h1, k2 ∙ h2)

  -- If reads leave the chain as it was, the admin operations change neither the index of credits nor
  -- the chain, however many are called. An address that they register, suspend or configure is a verifier
  -- afterwards exactly if it was one before, though the registration of any address is reported as done.
  pub run-get_verifier :
      (cs : List (Call p)) (s : State p) (address : String)
      → ((run p cs s).repo ≡ s.repo)
        × ((run p cs s).chain ≡ s.chain)
        × ((get_verifier sdk stellar contract_id address (run p cs s).chain).0
            ≡ (get_verifier sdk stellar contract_id address s.chain).0)
        × ((register_verifier p address (run p cs s)).0
            ≡ ok (record { registered = true; address = address }))
  unfolding register_verifier
  run-get_verifier cs s address =
      let (h1, h2) = run-Keeps cs s in
      (h1, h2, ap (λ c. (get_verifier sdk stellar contract_id address c).0) h2, refl)
