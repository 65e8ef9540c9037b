-- ===== src/Frontend/ProjectDetail/Tests.antt =====
-- The page of a project at concrete answers.
use carbonchain.Prelude.{String, ◌≡◌, refl, [], ◌∷◌, ◌===◌, if◌then◌else◌}
use carbonchain.Shared.{CreditMetadata, active}
use carbonchain.Frontend.{Outcome, fulfilled, rejected, other}
use carbonchain.Frontend.ProjectDetail.{all_credits}

credit : String → CreditMetadata
credit id = record {
  id = id;
  project_id = "proj_abc";
  issuer = "GDEV";
  vintage_year = 2024;
  methodology = "VCS";
  geography = "NG";
  tonnes = "1000000";
  ipfs_hash = "";
  status = active;
  issued_at = 0;
}

-- There are the credits a and b, and the credit c cannot be had.
abbrev get_credit : String → Outcome CreditMetadata
get_credit id = if id === "c" then rejected other else fulfilled (credit id)

-- One credit that cannot be had keeps the page from showing the others.
all_of_them : all_credits get_credit ("a" ∷ "b" ∷ []) ≡ fulfilled (credit "a" ∷ credit "b" ∷ [])
unfolding all_credits
all_of_them = refl

one_missing : all_credits get_credit ("a" ∷ "c" ∷ []) ≡ rejected other
unfolding all_credits
one_missing = refl
