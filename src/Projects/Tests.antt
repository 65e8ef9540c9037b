-- ===== src/Projects/Tests.antt =====
-- Creating projects at concrete inputs.
use carbonchain.Prelude.{◌≡◌, refl, some, []}
use carbonchain.Prelude.Results.{ok, err, error}
use carbonchain.Projects.{profile, upload_to_ipfs, documents_cid, create_project}
use carbonchain.Projects.Sample.{down, config, start, request}

creating : Unit {0}
unfolding create_project documents_cid upload_to_ipfs
creating = tt

-- Without documents nothing is uploaded; with documents the upload fails.
without_documents :
    (create_project down config request start).0 ≡ ok (profile request "proj_abc" "")
unfolding creating
without_documents = refl

with_documents :
    create_project down config (record request { documents = some "{}" }) start
    ≡ (err (error "down"), record { projects = []; outside = 1 })
unfolding creating
with_documents = refl
