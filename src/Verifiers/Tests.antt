-- ===== src/Verifiers/Tests.antt =====
-- The verifiers of the sample contract, which lists one.
use carbonchain.Prelude.{◌≡◌, refl, List, []}
use carbonchain.Prelude.Results.{ok, err, not_found}
use carbonchain.Shared.{CreditMetadata}
use carbonchain.External.Sample.{sample_sdk, sample_stellar}
use carbonchain.Verifiers.{list_verifiers, get_verifier, get_pending_credits, get_approval_history}
use carbonchain.Verifiers.Lookup.{get_verifier_lem}

found : (get_verifier sample_sdk sample_stellar "REG" "0b" []).0 ≡ ok (record { address = "0b" })
unfolding get_verifier list_verifiers
found = refl

get_verifier_lem_example :
    ((get_verifier sample_sdk sample_stellar "REG" "GX" []).0
      ≡ err (not_found "Verifier GX not found"))
    × ((cs : List CreditMetadata) × ((get_pending_credits sample_sdk sample_stellar "REG" "GX" []).0
          ≡ ok cs))
    × ((cs : List CreditMetadata) × ((get_approval_history sample_sdk sample_stellar "REG" "GX"
            []).0
          ≡ ok cs))
get_verifier_lem_example = get_verifier_lem sample_sdk sample_stellar "REG" "GX" []
