-- ===== src/Retirement/Service/Certificates.antt =====
-- What the certificates and the listings of the service say.
use carbonchain.Prelude.{
  ℕ, suc, ◌≤◌, String, ◌≡◌, ◌⊎◌, inl, inr, refl, true, List, arith, All, filter, filter-All,
  All-mono, length, ◌===◌, ===_iff,
}
use carbonchain.Prelude.Int.{ℤ, pos}
use carbonchain.Prelude.Slice.{All-slice}
use carbonchain.Prelude.JsMap.{values}
use carbonchain.Prelude.Results.{ok, err, not_found, Exception, Result-cases}
use carbonchain.Shared.{RetirementRecord}
use carbonchain.Paging.{PageResult, paginate}
use carbonchain.Paging.Pages.{length-paginate}
use carbonchain.Retirement.Repository.{RetirementEntity, in_memory, ok_injective}
use carbonchain.Retirement.Service.{
  Platform, State, get_retirement, certificate, certificate_error, verify_certificate,
}

module _ (p : Platform) where
  -- A certificate is verified exactly when the retirement can be read, and then repeats its data. Every
  -- failure to read it, also one of the network or of the index, becomes the same NotFound error.
  -- Verifying changes what reading the retirement changes.
  pub verify_certificate_lem :
      (id : String) (s : State p)
      → (((r : RetirementRecord) × ((get_retirement p id s).0 ≡ ok r)
            × ((verify_certificate p id s).0 ≡ ok (certificate r))
            × ((certificate r).verified ≡ true))
          ⊎ ((e : Exception) × ((get_retirement p id s).0 ≡ err e)
              × ((verify_certificate p id s).0 ≡ err (not_found (certificate_error id)))))
        × ((verify_certificate p id s).1 ≡ (get_retirement p id s).1)
  unfolding verify_certificate
  verify_certificate_lem id s = elim (Result-cases (get_retirement p id s).0) [
    | inl (r, e) ↦ (inl (r, e, rw e, refl), rw e)
    | inr (x, e) ↦ (inr (x, e, rw e), rw e)
  ]

paginate-All :
    {A : Type 0} (P : A → Type 0) (xs : List A) (page limit : ℤ)
    → All P xs
    → All P (paginate xs page limit).items
unfolding paginate
paginate-All P xs page limit h = All-slice P xs _ _ h

-- In the in-memory index, every page of an account holds retirements of that account only; its
-- total is the number of all of them, and with `l` items to a page no page is longer than `l`.
pub find_by_buyer_lem :
    (account : String) (page : ℕ) (l : ℕ) (s : in_memory.Store) (r : PageResult RetirementEntity)
    → in_memory.find_by_buyer account (pos (suc page)) (pos l) s ≡ ok r
    → All (λ e. e.buyer ≡ account) r.items
      × (r.total ≡ length (filter (λ e. e.buyer === account) (values s)))
      × (length r.items ≤ l)
unfolding paginate
find_by_buyer_lem account page l s r h =
    let xs = filter (λ e. e.buyer === account) (values s) in
    let own =
      All-mono xs (λ e q. (===_iff e.buyer account).0 q)
        (filter-All (λ e. e.buyer === account) (values s)) in
    rw (ok_injective h) (
      paginate-All (λ e. e.buyer ≡ account) xs (pos (suc page)) (pos l) own,
      refl,
      omega (arith, length-paginate xs page l),
    )
