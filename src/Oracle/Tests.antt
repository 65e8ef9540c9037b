-- ===== src/Oracle/Tests.antt =====
-- Measurements at concrete inputs: a digest is the secret and the text, buffers are texts.
use carbonchain.Prelude.{ℕ, String, ◌≡◌, ◌≢◌, ◌⊎◌, refl, some, List, [], ◌∷◌}
use carbonchain.Prelude.BigInt.{big_int}
use carbonchain.Prelude.Results.{err, unauthorized}
use carbonchain.External.Sample.{sample_sdk, sample_stellar}
use carbonchain.Keypair.{get_admin_keypair}
use carbonchain.Credits.Listing.{parse_big_int}
use carbonchain.Oracle.{
  expected, actual, validate_signature, mrv_args, update_mrv_data, ingest_mrv_data,
}
use carbonchain.Oracle.Signatures.{ingest_mrv_data_lem}
use carbonchain.Oracle.Sample.{crypto, crypto_laws, oracle_service, measured}

recorded :
    (ingest_mrv_data crypto sample_sdk sample_stellar
      (some "SADMIN")
      oracle_service
      measured
      9
      []).1
    ≡ "update_mrv_data" ∷ []
unfolding ingest_mrv_data validate_signature update_mrv_data mrv_args parse_big_int big_int
    get_admin_keypair
recorded = refl

ingest_mrv_data_lem_example :
    ((expected crypto sample_sdk sample_stellar (some "SADMIN") oracle_service measured
        ≡ actual crypto sample_sdk sample_stellar (some "SADMIN") measured)
      × ((oracle : String) (now : ℕ) (c : List String)
          → ingest_mrv_data crypto sample_sdk sample_stellar
              (some "SADMIN")
              oracle_service
              (record measured { oracle_public_key = oracle })
              now
              c
            ≡ update_mrv_data crypto sample_sdk sample_stellar
                (some "SADMIN")
                oracle_service
                (record measured { oracle_public_key = oracle })
                now
                c))
    ⊎ ((expected crypto sample_sdk sample_stellar (some "SADMIN") oracle_service measured
          ≢ actual crypto sample_sdk sample_stellar (some "SADMIN") measured)
        × ((oracle : String) (now : ℕ) (c : List String)
            → ingest_mrv_data crypto sample_sdk sample_stellar
                (some "SADMIN")
                oracle_service
                (record measured { oracle_public_key = oracle })
                now
                c
              ≡ (err (unauthorized "Invalid oracle signature"), c)))
ingest_mrv_data_lem_example =
    ingest_mrv_data_lem crypto crypto_laws sample_sdk sample_stellar (some "SADMIN") oracle_service
      measured
