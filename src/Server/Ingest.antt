-- ===== src/Server/Ingest.antt =====
-- `ingest_coverage` of crates/omnivore-server/src/routes/coverage.rs, up to the request that posts a
-- comment. The decoders, the environment, the headers and the clock are arguments.
pub mod Links
pub mod Guards
mod Tests
use omnivore.Prelude.{ℕ, Bool, true, false, not, Option, none, some, List, [], ◌∷◌, ◌++◌}
use omnivore.Prelude.Tests.{if◌then◌else◌}
use omnivore.Text.Base.{Text, eq_ignore_ascii_case}
use omnivore.Float.{F64}
use omnivore.Validation.{is_valid_repo_slug}
use omnivore.Model.Target.{CoverageTarget, jvm_unit}
use omnivore.Model.Target
use omnivore.Model.Report.{OmnivoreReport}
use omnivore.Model.Snapshot.{CoverageSnapshot, Outside}
use omnivore.Parsers.Errors.{Result, ok, err, IngestMeta, Parsed}
use omnivore.Parsers.Format.{
  CoverageFormat, omnivore_json, lcov, llvm_cov, go_coverprofile, python_coverage, jacoco, kover,
  from_str_loose, detect, source,
}
use omnivore.Parsers.OmnivoreJson
use omnivore.Parsers.Lcov
use omnivore.Parsers.LlvmCov
use omnivore.Parsers.GoCoverprofile.Report as GoReport
use omnivore.Parsers.PythonCoverage
use omnivore.Parsers.JacocoXml
use omnivore.Storage.Records.{ApiKey, Project, Tables, DbResult, done, failed}
use omnivore.Storage.Tables.{get_project}
use omnivore.Storage.Ratchet.{RatchetResult}
use omnivore.Storage.Retention.{Order}
use omnivore.Storage.Ingest.{Config, ingest_snapshot}
use omnivore.Server.Answer.{
  Status, bad_request, not_found, too_many_requests, internal_server_error, Answer, refused,
  answered,
}
use omnivore.Server.RateLimit.{Buckets, max_requests, check, client_key}
use omnivore.Server.ApiAuth.{authenticate_write, enforce_project_scope}

pub record IngestParams : Type 0 where
  pub format : Option Text
  pub target : Option Text
  pub project_id : Option Text
  pub project_name : Option Text
  pub commit_sha : Option Text
  pub branch : Option Text

-- What the handler is given beside the request.
pub record Around (R : Type 0) : Type 0 where
  pub to_lowercase : Text → Text
  pub iterate : List Text → List Text
  pub decode_omnivore : Text → Option (OmnivoreReport R)
  pub decode_llvm_cov : Text → Option (LlvmCov.LlvmCovExport R)
  pub decode_python : Text → Option PythonCoverage.CoverageJson
  pub decode_jacoco : Text → Option JacocoXml.Report
  pub out : Outside R
  pub hash_key : Text → Text
  pub order : Order R
  pub config : Config
  pub rate_limit : Option Text
  pub require_api_key : Option Text
  pub locked : Bool
  pub now : ℕ
  pub instant : ℕ

-- the headers, where they are text, and the address of the peer
pub record Headers : Type 0 where
  pub x_forwarded_for : Option Text
  pub x_api_key : Option Text
  pub peer : Option Text

pub record Stores (R : Type 0) : Type 0 where
  pub buckets : Buckets
  pub tables : Tables R

pub record IngestResponse (R : Type 0) : Type 0 where
  pub id : Text
  pub project_id : Text
  pub format : CoverageFormat
  pub line_rate : R
  pub branch_rate : R
  -- a warning for each floor that is violated: the line floor, then the branch floor
  pub warnings : List (R × R)

meta_of : IngestParams → IngestMeta
meta_of params = record {
  project_id = params.project_id;
  project_name = params.project_name;
  commit_sha = params.commit_sha;
  branch = params.branch;
}

or_bad_request {ℓ} : {A : Type ℓ} → Option A → Answer A
or_bad_request none = refused bad_request
or_bad_request (some a) = answered a

unfoldable pub format_of : (Text → Text) → Option Text → Text → Answer CoverageFormat
unfolding or_bad_request from_str_loose detect
format_of to_lowercase none body = or_bad_request (detect body)
format_of to_lowercase (some f) body = or_bad_request (from_str_loose to_lowercase f)

-- `?target=`, else JVM unit coverage
unfoldable pub target_of : Option Text → Answer CoverageTarget
unfolding or_bad_request Target.from_str_loose
target_of none = answered jvm_unit
target_of (some t) = or_bad_request (Target.from_str_loose t)

module _ {R : Type 0} where
  parsed_or_bad : Result (Parsed R) → Answer (Parsed R)
  parsed_or_bad (ok p) = answered p
  parsed_or_bad (err e) = refused bad_request

module _ {R : Type 0} ⦃f64 : F64 R⦄ where
  parse_jacoco :
      Around R → Text → IngestMeta → CoverageFormat → Answer CoverageTarget → Answer (Parsed R)
  unfolding parsed_or_bad JacocoXml.parse source
  parse_jacoco around body meta format (refused s) = refused s
  parse_jacoco around body meta format (answered target) =
      parsed_or_bad
        (JacocoXml.parse around.decode_jacoco around.out body meta target (source format))

  unfoldable pub parse_as : Around R → IngestParams → Text → CoverageFormat → Answer (Parsed R)
  unfolding parsed_or_bad meta_of parse_jacoco target_of OmnivoreJson.parse Lcov.parse LlvmCov.parse
      GoReport.parse PythonCoverage.parse
  parse_as around params body omnivore_json =
      parsed_or_bad (OmnivoreJson.parse around.decode_omnivore around.out body)
  parse_as around params body lcov = parsed_or_bad (Lcov.parse around.out body (meta_of params))
  parse_as around params body llvm_cov =
      parsed_or_bad (LlvmCov.parse around.decode_llvm_cov around.out body (meta_of params))
  parse_as around params body go_coverprofile =
      parsed_or_bad (GoReport.parse around.iterate around.out body (meta_of params))
  parse_as around params body python_coverage =
      parsed_or_bad (PythonCoverage.parse around.decode_python around.out body (meta_of params))
  parse_as around params body jacoco =
      parse_jacoco around body (meta_of params) jacoco (target_of params.target)
  parse_as around params body kover =
      parse_jacoco around body (meta_of params) kover (target_of params.target)

  -- `if violated { if let Some(floor) = floor { … } }`
  warning : Bool → R → Option R → List (R × R)
  warning false rate floor = []
  warning true rate none = []
  warning true rate (some floor) = (rate, floor) ∷ []

  response : CoverageFormat → CoverageSnapshot R → RatchetResult R → IngestResponse R
  unfolding warning
  response format snapshot ratchet = record {
    id = snapshot.id;
    project_id = snapshot.project_id;
    format = format;
    line_rate = snapshot.line_rate;
    branch_rate = snapshot.branch_rate;
    warnings =
        warning ratchet.line_floor_violated snapshot.line_rate ratchet.line_floor
        ++ warning ratchet.branch_floor_violated snapshot.branch_rate ratchet.branch_floor;
  }

  ingest_answer :
      CoverageFormat
      → CoverageSnapshot R
      → DbResult (RatchetResult R) × Tables R
      → Answer (IngestResponse R) × Tables R
  unfolding response
  ingest_answer format snapshot (failed e, db) = (refused internal_server_error, db)
  ingest_answer format snapshot (done ratchet, db) =
      (answered (response format snapshot ratchet), db)

  -- an unknown project where none is created on the fly
  unknown_project : Config → Option (Project R) → Bool
  unknown_project config (some p) = false
  unknown_project config none = not config.allow_project_autocreate

  -- behind the scope of the key
  store_scoped :
      Around R
      → CoverageFormat
      → Parsed R
      → Answer (Unit {0})
      → Tables R
      → Answer (IngestResponse R) × Tables R
  unfolding unknown_project ingest_answer ingest_snapshot get_project
  store_scoped around format p (refused s) db = (refused s, db)
  store_scoped around format p (answered u) db =
      if unknown_project around.config (get_project p.1.project_id db)
      then (refused not_found, db)
      else ingest_answer format p.1
          (ingest_snapshot around.order around.config p.1 (some p.0.project.name) around.now db)

  store_parsed :
      Around R
      → Option ApiKey
      → CoverageFormat
      → Answer (Parsed R)
      → Tables R
      → Answer (IngestResponse R) × Tables R
  unfolding store_scoped enforce_project_scope
  store_parsed around key format (refused s) db = (refused s, db)
  store_parsed around key format (answered p) db =
      store_scoped around format p (enforce_project_scope key p.1.project_id) db

  store_format :
      Around R
      → IngestParams
      → Text
      → Option ApiKey
      → Answer CoverageFormat
      → Tables R
      → Answer (IngestResponse R) × Tables R
  unfolding store_parsed parse_as
  store_format around params body key (refused s) db = (refused s, db)
  store_format around params body key (answered format) db =
      store_parsed around key format (parse_as around params body format) db

  store_authenticated :
      Around R
      → IngestParams
      → Text
      → Answer (Option ApiKey) × Tables R
      → Answer (IngestResponse R) × Tables R
  unfolding store_format format_of
  store_authenticated around params body (refused s, db) = (refused s, db)
  store_authenticated around params body (answered key, db) =
      store_format around params body key (format_of around.to_lowercase params.format body) db

  store_admitted :
      Around R
      → Headers
      → IngestParams
      → Text
      → Bool
      → Tables R
      → Answer (IngestResponse R) × Tables R
  unfolding store_authenticated authenticate_write
  store_admitted around headers params body false db = (refused too_many_requests, db)
  store_admitted around headers params body true db =
      store_authenticated around params body
        (authenticate_write around.hash_key around.require_api_key headers.x_api_key around.now db)

  unfoldable pub ingest_coverage :
      Around R → Headers → IngestParams → Text → Stores R → Answer (IngestResponse R) × Stores R
  unfolding store_admitted check client_key max_requests
  ingest_coverage around headers params body stores =
      let (admitted, buckets) =
        check around.locked (max_requests around.rate_limit) around.instant
          (client_key headers.x_forwarded_for headers.peer) stores.buckets in
      let (answer, tables) = store_admitted around headers params body admitted stores.tables in
      (answer, record { buckets = buckets; tables = tables })
