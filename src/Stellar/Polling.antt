-- ===== src/Stellar/Polling.antt =====
-- How the outcome of a transaction is found.
use carbonchain.Prelude.{
  ℕ, zero, suc, String, ◌+++◌, ◌≡◌, ◌≢◌, ◌<◌, refl, ap, ◌∙◌, ◌⊎◌, inl, inr, true, false, arith,
  ◌===◌, ===_iff, Bool-cases,
}
use carbonchain.Prelude.Results.{Result, ok, err, error, Exception, Result-cases}
use carbonchain.External.{Sdk}
use carbonchain.Stellar.{
  TransactionResponse, SendResponse, Network, is_final, poll_transaction_status, submitted,
}

waiting_status : (s : String) → (s ≡ "NOT_FOUND") ⊎ (s ≡ "PENDING") → is_final s ≡ false
waiting_status s (inl e) = ap is_final e
waiting_status s (inr e) = ap is_final e

final_status : (s : String) → s ≢ "NOT_FOUND" → s ≢ "PENDING" → is_final s ≡ true
final_status s a b = elim (Bool-cases (s === "NOT_FOUND")) [
  | inl e ↦ absurd (a ((===_iff s "NOT_FOUND").0 e))
  | inr e ↦ elim (Bool-cases (s === "PENDING")) [
    | inl f ↦ absurd (b ((===_iff s "PENDING").0 f))
    | inr f ↦ rw (e, f) refl
  ]
]

module _ {sdk : Sdk} (net : Network sdk) where
  abbrev pub Answer : Type 0
  Answer = Result (TransactionResponse sdk.ScVal)

  -- An answer after which the transaction is asked for again.
  abbrev pub IsWaiting : Answer → Type 0
  IsWaiting a =
      (r : TransactionResponse sdk.ScVal) × (a ≡ ok r)
      × ((r.status ≡ "NOT_FOUND") ⊎ (r.status ≡ "PENDING"))

  -- An error, or an answer with any other status.
  abbrev pub IsDecisive : Answer → Type 0
  IsDecisive a =
      ((e : Exception) × (a ≡ err e))
      ⊎ ((r : TransactionResponse sdk.ScVal) × (a ≡ ok r)
          × (r.status ≢ "NOT_FOUND")
          × (r.status ≢ "PENDING"))

  -- The network after so many questions, each followed by a pause of two seconds.
  unfoldable pub after : String → ℕ → net.State → net.State
  after hash zero s = s
  after hash (suc k) s = after hash k (net.sleep 2000 (net.get_transaction hash s).1)

  abbrev pub answer_at : String → ℕ → net.State → Answer
  answer_at hash k s = (net.get_transaction hash (after hash k s)).0

  abbrev pub AllWaiting : String → ℕ → net.State → Type 0
  AllWaiting hash n s = (j : ℕ) → j < n → IsWaiting (answer_at hash j s)

  -- One of the first `n` answers is decisive and those before it are not: it is the outcome.
  pub record Decided (hash : String) (n : ℕ) (s : net.State) (outcome : Answer × net.State)
      : Type 0 where
    pub k : ℕ
    pub in_time : k < n
    pub waited : AllWaiting hash k s
    pub decisive : IsDecisive (answer_at hash k s)
    pub is_outcome : outcome ≡ net.get_transaction hash (after hash k s)

  -- None of the first `n` answers is decisive, and no further question is asked.
  pub record TimedOut (hash : String) (n : ℕ) (s : net.State) (outcome : Answer × net.State)
      : Type 0 where
    pub waited : AllWaiting hash n s
    pub is_outcome :
        outcome
        ≡ (err (error ("Transaction polling timed out for hash: " +++ hash)), after hash n s)

  answer-cases : (a : Answer) → IsWaiting a ⊎ IsDecisive a
  answer-cases a = elim (Result-cases a) [
    | inr (x, e) ↦ inr (inl (x, e))
    | inl (r, e) ↦ elim (Bool-cases (r.status === "NOT_FOUND")) [
      | inl f ↦ inl (r, e, inl ((===_iff _ _).0 f))
      | inr f ↦ elim (Bool-cases (r.status === "PENDING")) [
        | inl g ↦ inl (r, e, inr ((===_iff _ _).0 g))
        | inr g ↦ inr (inr (r, e, λ x. cc, λ x. cc))
      ]
    ]
  ]

  ask_again :
      (hash : String) (n : ℕ) (s : net.State)
      → IsWaiting (net.get_transaction hash s).0
      → poll_transaction_status net hash (suc n) s
        ≡ poll_transaction_status net hash n (net.sleep 2000 (net.get_transaction hash s).1)
  unfolding poll_transaction_status
  ask_again hash n s (r, e, w) =
      let f = waiting_status r.status w in rw (e, f, poll_transaction_status) refl

  stop :
      (hash : String) (n : ℕ) (s : net.State)
      → IsDecisive (net.get_transaction hash s).0
      → poll_transaction_status net hash (suc n) s ≡ net.get_transaction hash s
  unfolding poll_transaction_status
  stop hash n s (inl (x, e)) = rw (e, poll_transaction_status) refl
  stop hash n s (inr (r, e, a, b)) =
      let f = final_status r.status a b in rw (e, f, poll_transaction_status) refl

  first_waited :
      (hash : String) (n : ℕ) (s : net.State)
      → IsWaiting (net.get_transaction hash s).0
      → AllWaiting hash n (net.sleep 2000 (net.get_transaction hash s).1)
      → AllWaiting hash (suc n) s
  unfolding after
  first_waited hash n s first rest zero h = first
  first_waited hash n s first rest (suc j) h = rest j (omega arith)

  later_outcome :
      (hash : String) (n : ℕ) (s : net.State) (outcome : Answer × net.State)
      → IsWaiting (net.get_transaction hash s).0
      → (let s1 = net.sleep 2000 (net.get_transaction hash s).1 in
          Decided hash n s1 outcome ⊎ TimedOut hash n s1 outcome)
      → Decided hash (suc n) s outcome ⊎ TimedOut hash (suc n) s outcome
  unfolding after
  later_outcome hash n s outcome first (inl d) = inl (record {
    k = suc d.k;
    in_time = omega (arith, d.in_time);
    waited = first_waited hash d.k s first d.waited;
    decisive = d.decisive;
    is_outcome = d.is_outcome;
  })
  later_outcome hash n s outcome first (inr t) =
      inr (record { waited = first_waited hash n s first t.waited; is_outcome = t.is_outcome })

  -- Asked at most `n` times, with two seconds after each answer that is not decisive, the outcome is the
  -- first decisive answer, that is the first error or the first whose status is neither NOT_FOUND nor
  -- PENDING, and no question follows it; if there is none among the `n` answers, the polling times out
  -- after all of them.
  pub poll_transaction_status_lem :
      (hash : String) (n : ℕ) (s : net.State)
      → Decided hash n s (poll_transaction_status net hash n s)
        ⊎ TimedOut hash n s (poll_transaction_status net hash n s)
  unfolding poll_transaction_status after
  poll_transaction_status_lem hash zero s =
      inr (record { waited = λ j h. absurd (omega arith); is_outcome = refl })
  poll_transaction_status_lem hash (suc n) s = elim (answer-cases (net.get_transaction hash s).0) [
    | inl waiting ↦ rw (ask_again hash n s waiting) (
        later_outcome hash n s _ waiting
          (poll_transaction_status_lem hash n (net.sleep 2000 (net.get_transaction hash s).1)))
    | inr decisive ↦ inl (record {
      k = 0;
      in_time = omega arith;
      waited = λ j h. absurd (omega arith);
      decisive = decisive;
      is_outcome = stop hash n s decisive;
    })
  ]

  -- The first decisive answer is the outcome.
  pub poll-answer_at :
      (hash : String) (k n : ℕ) (s : net.State)
      → k < n
      → AllWaiting hash k s
      → IsDecisive (answer_at hash k s)
      → (poll_transaction_status net hash n s).0 ≡ answer_at hash k s
  unfolding after
  poll-answer_at hash k zero s h waited decisive = absurd (omega arith)
  poll-answer_at hash zero (suc n) s h waited decisive = ap (λ o. o.0) (stop hash n s decisive)
  poll-answer_at hash (suc k) (suc n) s h waited decisive =
      ap (λ o. o.0) (ask_again hash n s (waited 0 (omega arith)))
      ∙ poll-answer_at hash k n (net.sleep 2000 (net.get_transaction hash s).1) (omega arith)
          (λ j i. waited (suc j) (omega arith)) decisive

  -- A transaction that was accepted for execution and is then found to have failed on the chain is an
  -- answer like one that succeeded: nothing is thrown.
  pub submitted-failed :
      (r : SendResponse) (t : TransactionResponse sdk.ScVal) (k : ℕ) (s : net.State)
      → r.status ≡ "PENDING"
      → k < 10
      → AllWaiting r.hash k s
      → answer_at r.hash k s ≡ ok t
      → t.status ≡ "FAILED"
      → (submitted net r s).0 ≡ ok t
  unfolding submitted
  submitted-failed r t k s sent in_time waited answer failed =
      let pending = ap (λ x. x === "PENDING") sent in
      let polled =
        poll-answer_at r.hash k 10 s in_time waited (inr (t, answer, λ x. cc, λ x. cc)) in
      ground (arith, pending, polled, answer)
