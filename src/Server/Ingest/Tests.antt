-- ===== src/Server/Ingest/Tests.antt =====
-- Uploads at concrete inputs.
use omnivore.Prelude.{ℕ, ◌≡◌, refl, true, none, some, []}
use omnivore.Prelude.Tests.{leb}
use omnivore.Prelude.Sort.{sort}
use omnivore.Text.Base.{Text, codes}
use omnivore.Float.{millionths}
use omnivore.Validation.{is_valid_repo_slug}
use omnivore.Model.Plausible.{drop_implausible_lines}
use omnivore.Storage.Ratchet.{default_policy}
use omnivore.Server.Answer.{answered, bad_request}
use omnivore.Server.RateLimit.{max_requests, check, client_key}
use omnivore.Server.ApiAuth.{authenticate_write}
use omnivore.Server.ApiAuth.Decides.{SameRows}
use omnivore.Server.Ingest.{IngestParams, Around, Headers, Stores, IngestResponse, ingest_coverage}
use omnivore.Server.Ingest.Guards.{
  IsPermitted, ingest_coverage-refused, ingest_coverage-IsPermitted,
}
use omnivore.Server.Comment.{comment_token}
use omnivore.Server.Comment.Token.{IsGranted, comment_token-IsGranted}

abbrev around : Around ℕ
around = record {
  to_lowercase = λ s. s;
  iterate = λ names. names;
  decode_omnivore = λ s. none;
  decode_llvm_cov = λ s. none;
  decode_python = λ s. none;
  decode_jacoco = λ s. none;
  out = record {
    new_id = codes "7d3f";
    now = 1000;
    files_to_json = λ fs. none;
    dependencies_to_json = λ d. none;
  };
  hash_key = λ s. s;
  order = λ rows. sort (λ a b. leb b.created_at a.created_at) rows;
  config = record { allow_project_autocreate = true; ratchet = default_policy };
  rate_limit = none;
  require_api_key = none;
  locked = true;
  now = 1000;
  instant = 5;
}

abbrev headers : Headers
headers = record { x_forwarded_for = none; x_api_key = none; peer = some (codes "::1") }

abbrev params : Text → IngestParams
params format = record {
  format = some format;
  target = none;
  project_id = some (codes "p");
  project_name = none;
  commit_sha = none;
  branch = none;
}

abbrev body : Text
body = codes "SF:a.rs\nDA:1,2\nend_of_record\n"

abbrev stores : Stores ℕ
stores = record {
  buckets = [];
  tables = record { projects = []; snapshots = []; api_keys = []; settings = none };
}

accepted_upload :
    (r : IngestResponse ℕ) × ((ingest_coverage around headers (params (codes "lcov")) body stores).0
      ≡ answered r)
unfolding ingest_coverage drop_implausible_lines
accepted_upload = (_, refl)

ingest_coverage-IsPermitted_example :
    ((check true (max_requests none) 5 (client_key none (some (codes "::1"))) []).0 ≡ true)
    × IsPermitted
        (authenticate_write around.hash_key none none 1000 stores.tables).0
        accepted_upload.0
ingest_coverage-IsPermitted_example =
    ingest_coverage-IsPermitted around headers (params (codes "lcov")) body stores accepted_upload.0
      accepted_upload.1

ingest_coverage-refused_example :
    SameRows stores.tables
      (ingest_coverage around headers (params (codes "gcov")) body stores).1.tables
unfolding ingest_coverage
ingest_coverage-refused_example =
    ingest_coverage-refused around headers (params (codes "gcov")) body stores bad_request refl
      (λ e. cc)

comment_token-IsGranted_example :
    (is_valid_repo_slug (codes "o/n") ≡ true)
    × IsGranted none (some (codes "t")) (some (codes "O/N")) (codes "o/n") (codes "t")
unfolding comment_token
comment_token-IsGranted_example =
    comment_token-IsGranted none (some (codes "t")) (some (codes "O/N")) (codes "o/n") (codes "t")
      refl
