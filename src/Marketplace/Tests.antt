-- ===== src/Marketplace/Tests.antt =====
-- The marketplace at concrete inputs.
use carbonchain.Prelude.{◌≡◌, refl, ◌===◌, none, some, [], ◌∷◌, if◌then◌else◌}
use carbonchain.Prelude.Results.{ok, err, error}
use carbonchain.Prelude.Decimal.{decimal}
use carbonchain.Shared.{open_offer}
use carbonchain.External.{Sdk}
use carbonchain.External.Sample.{sample_sdk}
use carbonchain.Marketplace.{Platform, map_offer, map_offers, listed_offer, get_listings}

-- The contract answers with two offers; reading a property of `bad` throws.
abbrev two_offers : Sdk
two_offers = record sample_sdk {
  field = λ name v. if v === "bad" then err (error "no such property") else ok name;
  items = λ v. ok ("good" ∷ "bad" ∷ []);
}

abbrev p : Platform
p = record {
  sdk = two_offers;
  stellar = record {
    Chain = Unit;
    invoke_contract = λ contract method args signer c. (ok none, c);
    read_contract = λ contract method args c. (ok (some "offers"), c);
  };
  admin = none;
  contract_id = "CMKT";
  native_token_id = "CXLM";
}

offers : Unit {0}
unfolding map_offer decimal
offers = tt

good :
    listed_offer p "good"
    ≡ ok (record {
      id = "0";
      seller = "seller";
      credit_id = "credit_id";
      price_xlm = "price_xlm";
      tonnes_available = "tonnes";
      created_at = 0;
      status = open_offer;
    })
unfolding offers
good = refl

-- One offer that cannot be read hides the other.
none_listed : (get_listings p tt).0 ≡ ok []
unfolding offers get_listings map_offers
none_listed = refl
