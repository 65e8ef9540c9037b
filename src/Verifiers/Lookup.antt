-- ===== src/Verifiers/Lookup.antt =====
-- Which verifiers are found, and what the reads answer when the contract cannot be read.
use carbonchain.Prelude.{
  String, ◌+++◌, ◌≡◌, refl, Bool, inl, inr, none, some, List, [], ◌∷◌, find, any, arith, ◌===◌,
  ===_iff, Bool-cases, if◌then◌else◌,
}
use carbonchain.Prelude.Results.{Result, ok, err, not_found, handle, and_then, lift, pure, or_throw}
use carbonchain.Shared.{CreditMetadata}
use carbonchain.External.{Sdk, Stellar}
use carbonchain.Verifiers.{
  VerifierInfo, read_verifiers, list_verifiers, get_verifier, read_credits, get_pending_credits,
  get_approval_history,
}

abbrev pub is_listed : String → List VerifierInfo → Bool
is_listed address vs = any (λ v. v.address === address) vs

find_listed :
    (address : String) (vs : List VerifierInfo)
    → find (λ v. v.address === address) vs
      ≡ (if is_listed address vs then some (record { address = address }) else none)
find_listed address [] = refl
find_listed address (v ∷ vs) = elim (Bool-cases (v.address === address)) [
  | inl e ↦ ground (arith, ===_iff v.address address)
  | inr e ↦ ground (arith, find_listed address vs)
]

module _ (sdk : Sdk) (stellar : Stellar sdk) (contract_id : String) where
  -- What the contract lists, nothing where the read fails.
  abbrev pub listed : stellar.Chain → List VerifierInfo
  listed c = elim (read_verifiers sdk stellar contract_id c).0 [ ok vs ↦ vs | err e ↦ [] ]

  answered :
      {A : Type 0} (r : Result (List A) × stellar.Chain)
      → (xs : List A) × ((handle r (λ e. pure [])).0 ≡ ok xs)
  answered (ok xs, c) = (xs, refl)
  answered (err e, c) = ([], refl)

  verified :
      (address : String) (r : Result (List VerifierInfo) × stellar.Chain)
      → (and_then (handle r (λ e. pure [])) (λ vs. lift (
          or_throw
            (find (λ v. v.address === address) vs)
            (not_found ("Verifier " +++ (address +++ " not found")))))).0
        ≡ (if is_listed address (elim r.0 [ ok vs ↦ vs | err e ↦ [] ])
            then ok (record { address = address })
            else err (not_found ("Verifier " +++ (address +++ " not found"))))
  verified address (err e, c) = refl
  verified address (ok vs, c) = elim (Bool-cases (is_listed address vs)) [
    | inl e ↦ rw (find_listed address vs, e) refl
    | inr e ↦ rw (find_listed address vs, e) refl
  ]

  -- A verifier is found exactly if the contract lists the address; where it does not, and also where
  -- the contract cannot be read, the answer is that the verifier is not found. The other reads never
  -- fail.
  pub get_verifier_lem :
      (address : String) (c : stellar.Chain)
      → ((get_verifier sdk stellar contract_id address c).0 ≡ (
          if is_listed address (listed c)
          then ok (record { address = address })
          else err (not_found ("Verifier " +++ (address +++ " not found")))))
        × ((cs : List CreditMetadata) × ((get_pending_credits sdk stellar contract_id address c).0
              ≡ ok cs))
        × ((cs : List CreditMetadata) × ((get_approval_history sdk stellar contract_id address c).0
              ≡ ok cs))
  unfolding get_verifier list_verifiers get_pending_credits get_approval_history
  get_verifier_lem address c = (
    verified address (read_verifiers sdk stellar contract_id c),
    answered (read_credits sdk stellar contract_id "get_pending_credits" address c),
    answered (read_credits sdk stellar contract_id "get_approval_history" address c),
  )
