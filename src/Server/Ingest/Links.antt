-- ===== src/Server/Ingest/Links.antt =====
-- About `ingest_coverage`: the repositories that projects are linked to.
use omnivore.Prelude.{sym, Bool, true, false, Option, some, inl, inr}
use mathlib.Core.Path.{subst}
use omnivore.Prelude.Tests.{Bool-cases}
use omnivore.Text.Base.{Text}
use omnivore.Float.{F64}
use omnivore.Parsers.Errors.{Parsed}
use omnivore.Parsers.Format.{CoverageFormat}
use omnivore.Storage.Records.{ApiKey, Tables, DbResult, done, failed}
use omnivore.Storage.Tables.{get_project}
use omnivore.Storage.Ratchet.{RatchetResult}
use omnivore.Storage.Ingest.{ingest_snapshot}
use omnivore.Storage.Ingest.Links.{HasLinks, ingest_snapshot-HasLinks}
use omnivore.Server.Answer.{Answer, refused, answered}
use omnivore.Server.ApiAuth.Decides.{authenticate_write-SameRows}
use omnivore.Server.ApiAuth.{enforce_project_scope}
use omnivore.Server.Ingest.{
  IngestParams, Around, Headers, Stores, ingest_answer, unknown_project, store_scoped, store_parsed,
  store_format, store_authenticated, store_admitted, parse_as, format_of, ingest_coverage,
}

module _ {R : Type 0} ⦃f64 : F64 R⦄ where
  answer-HasLinks :
      (format : CoverageFormat) (p : Parsed R) (r : DbResult (RatchetResult R) × Tables R)
      → HasLinks r.1.projects
      → HasLinks (ingest_answer format p.1 r).1.projects
  unfolding ingest_answer
  answer-HasLinks format p (failed e, db) h = h
  answer-HasLinks format p (done r, db) h = h

  scoped-HasLinks :
      (around : Around R) (format : CoverageFormat) (p : Parsed R) (u : Answer (Unit {0}))
      (db : Tables R)
      → HasLinks db.projects
      → HasLinks (store_scoped around format p u db).1.projects
  unfolding store_scoped
  scoped-HasLinks around format p (refused s) db h = h
  scoped-HasLinks around format p (answered u) db h =
      elim (Bool-cases (unknown_project around.config (get_project p.1.project_id db))) [
        | inl e ↦ rw e h
        | inr e ↦ rw e (
            answer-HasLinks format p
              (ingest_snapshot around.order around.config p.1 (some p.0.project.name) around.now db)
              (ingest_snapshot-HasLinks around.order around.config p.1 (some p.0.project.name)
                around.now db h))
      ]

  parsed-HasLinks :
      (around : Around R) (key : Option ApiKey) (format : CoverageFormat) (a : Answer (Parsed R))
      (db : Tables R)
      → HasLinks db.projects
      → HasLinks (store_parsed around key format a db).1.projects
  unfolding store_parsed
  parsed-HasLinks around key format (refused s) db h = h
  parsed-HasLinks around key format (answered p) db h =
      scoped-HasLinks around format p (enforce_project_scope key p.1.project_id) db h

  format-HasLinks :
      (around : Around R) (params : IngestParams) (body : Text) (key : Option ApiKey)
      (a : Answer CoverageFormat) (db : Tables R)
      → HasLinks db.projects
      → HasLinks (store_format around params body key a db).1.projects
  unfolding store_format
  format-HasLinks around params body key (refused s) db h = h
  format-HasLinks around params body key (answered format) db h =
      parsed-HasLinks around key format (parse_as around params body format) db h

  authenticated-HasLinks :
      (around : Around R) (params : IngestParams) (body : Text)
      (r : Answer (Option ApiKey) × Tables R)
      → HasLinks r.1.projects
      → HasLinks (store_authenticated around params body r).1.projects
  unfolding store_authenticated
  authenticated-HasLinks around params body (refused s, db) h = h
  authenticated-HasLinks around params body (answered key, db) h =
      format-HasLinks around params body key (format_of around.to_lowercase params.format body) db h

  admitted-HasLinks :
      (around : Around R) (headers : Headers) (params : IngestParams) (body : Text) (b : Bool)
      (db : Tables R)
      → HasLinks db.projects
      → HasLinks (store_admitted around headers params body b db).1.projects
  unfolding store_admitted
  admitted-HasLinks around headers params body false db h = h
  admitted-HasLinks around headers params body true db h =
      let same =
        authenticate_write-SameRows around.hash_key around.require_api_key headers.x_api_key
          around.now db in
      authenticated-HasLinks around params body _ (subst HasLinks (sym same.0) h)

  pub ingest_coverage-HasLinks :
      (around : Around R) (headers : Headers) (params : IngestParams) (body : Text)
      (stores : Stores R)
      → HasLinks stores.tables.projects
      → HasLinks (ingest_coverage around headers params body stores).1.tables.projects
  unfolding ingest_coverage
  ingest_coverage-HasLinks around headers params body stores h =
      admitted-HasLinks around headers params body _ stores.tables h
