-- ===== src/Retirement/CertificateService/Upload.antt =====
-- What a pinned certificate is.
use carbonchain.Prelude.{
  ◌*◌, String, ◌+++◌, ◌≡◌, refl, true, false, inl, inr, Option, none, some, List, [], ◌∷◌, ◌++◌,
  arith, ◌===◌, Bool-cases,
}
use carbonchain.Prelude.Results.{ok, Result-cases}
use carbonchain.Retirement.CertificateService.{
  CertificateData, Config, Command, draw_text, plain, continued, Response, Platform, header, body,
  footer, upload_request, generate_and_pin,
}

abbrev first_plain : List Command → Option String
first_plain (draw_text t plain ∷ rest) = some t
first_plain (c ∷ rest) = first_plain rest
first_plain [] = none

-- The text that follows a label on a drawn page.
pub value_of : String → List Command → Option String
value_of label (draw_text t continued ∷ rest) = elim (t === (label +++ ":")) [
  | true ↦ first_plain rest
  | false ↦ value_of label rest
]
value_of label (c ∷ rest) = value_of label rest
value_of label [] = none

module _ (p : Platform) (config : Config) where
  -- The page of a certificate.
  pub page : CertificateData → List Command
  unfolding header body footer
  page d = header p config ++ body p config d ++ footer p config

  -- Under the label of each field the page has its value.
  pub record IsDrawn (d : CertificateData) : Type 0 where
    pub retirement_id : value_of "Retirement ID" (page d) ≡ some ("  " +++ d.retirement_id)
    pub credit_id : value_of "Credit ID" (page d) ≡ some ("  " +++ d.credit_id)
    pub buyer : value_of "Buyer" (page d) ≡ some ("  " +++ d.buyer)
    pub tonnes :
        value_of "Tonnes Retired" (page d) ≡ some ("  " +++ (p.in_tonnes d.tonnes +++ " tonne(s)"))
    pub reason : value_of "Reason" (page d) ≡ some ("  " +++ d.reason)
    pub retired_at :
        value_of "Retired At" (page d) ≡ some ("  " +++ p.to_utc_string (d.timestamp * 1000))

  drawn : (d : CertificateData) → IsDrawn d
  unfolding page value_of
  drawn d = record {
    retirement_id = refl;
    credit_id = refl;
    buyer = refl;
    tonnes = refl;
    reason = refl;
    retired_at = refl;
  }

  -- If an id is returned, the page with every field of the certificate was rendered, sent with the id of
  -- the retirement in its name, accepted, and the id is the one of the answer.
  pub generate_and_pin-ok :
      (d : CertificateData) (net : p.Net) (cid : String)
      → (generate_and_pin p config d net).0 ≡ ok cid
      → (pdf : p.Buffer) × (r : Response) × IsDrawn d
        × (p.render (page d) ≡ ok pdf)
        × ((p.fetch (upload_request p config pdf d.retirement_id) net).0 ≡ ok r)
        × (r.is_ok ≡ true)
        × (r.ipfs_hash ≡ ok cid)
  unfolding generate_and_pin page
  generate_and_pin-ok d net cid h = elim (Result-cases (p.render (page d))) [
    | inr (e, x) ↦ absurd (ground (arith, x))
    | inl (pdf, x) ↦
        elim (Result-cases (p.fetch (upload_request p config pdf d.retirement_id) net).0) [
          | inr (e, y) ↦ absurd (ground (arith, x, y))
          | inl (r, y) ↦ elim (Bool-cases r.is_ok) [
            | inl z ↦ (pdf, r, drawn d, x, y, z, ground (arith, x, y, z))
            | inr z ↦ absurd (ground (arith, x, y, z))
          ]
        ]
  ]
