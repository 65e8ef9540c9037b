-- ===== src/Retirement/CertificateService/Tests.antt =====
-- A certificate that is pinned: a page is its own rendering, and every upload is accepted.
use carbonchain.Prelude.{◌≡◌, refl, true, false, List, [], ◌∷◌}
use carbonchain.Prelude.Decimal.{decimal}
use carbonchain.Prelude.Results.{ok, err, error}
use carbonchain.Retirement.CertificateService.{
  CertificateData, Config, Command, Response, UploadRequest, Platform, build_pdf, upload_request,
  pin_to_ipfs, generate_and_pin,
}

abbrev answer : Response
answer = record { is_ok = true; status = 200; body_text = ok "{}"; ipfs_hash = ok "QmPdf" }

abbrev platform : Platform
platform = record {
  Buffer = List Command;
  Net = List (UploadRequest (List Command));
  to_utc_string = λ ms. "Tue, 14 Nov 2023 22:13:20 GMT";
  in_tonnes = λ t. "2.5";
  render = λ cs. ok cs;
  metadata_json = λ name id. "{}";
  fetch = λ r net. (ok answer, r ∷ net);
}

abbrev config : Config
config = record { pinata_api_key = "k"; pinata_secret_key = "s"; pinata_api_url = "https://api" }

abbrev data_of_retirement : CertificateData
data_of_retirement = record {
  retirement_id = "0a";
  credit_id = "0b";
  buyer = "GBUYER";
  tonnes = "2500000";
  reason = "offset";
  timestamp = 1700000000;
}

abbrev refused : Response
refused = record {
  is_ok = false;
  status = 401;
  body_text = ok "no key";
  ipfs_hash = err (error "no JSON");
}

abbrev refusing : Platform
refusing = record platform { fetch = λ r net. (ok refused, r ∷ net) }

not_pinned :
    (generate_and_pin refusing config data_of_retirement []).0
    ≡ err (error "Pinata upload failed (401): no key")
unfolding generate_and_pin build_pdf pin_to_ipfs upload_request decimal
not_pinned = refl
