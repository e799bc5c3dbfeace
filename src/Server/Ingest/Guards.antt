-- ===== src/Server/Ingest/Guards.antt =====
-- About `ingest_coverage`: what is asked before a snapshot is stored, and refusals.
use omnivore.Prelude.{◌≡◌, ◌≢◌, refl, ◌∙◌, Bool, true, false, Option, some, inl, inr}
use mathlib.Core.Path.{subst}
use omnivore.Prelude.Tests.{Bool-cases}
use omnivore.Text.Base.{Text}
use omnivore.Float.{F64}
use omnivore.Parsers.Errors.{Parsed}
use omnivore.Parsers.Format.{CoverageFormat}
use omnivore.Storage.Records.{ApiKey, Tables, DbResult, done, failed}
use omnivore.Storage.Tables.{get_project}
use omnivore.Storage.Ratchet.{RatchetResult}
use omnivore.Storage.Ingest.{ingest_snapshot}
use omnivore.Server.Answer.{Status, internal_server_error, Answer, refused, answered}
use omnivore.Server.ApiAuth.Decides.{SameRows, authenticate_write-SameRows}
use omnivore.Server.RateLimit.{max_requests, check, client_key}
use omnivore.Server.ApiAuth.{authenticate_write, enforce_project_scope}
use omnivore.Server.Ingest.{
  IngestParams, Around, Headers, Stores, IngestResponse, response, ingest_answer, unknown_project,
  store_scoped, store_parsed, store_format, store_authenticated, store_admitted, parse_as,
  format_of, ingest_coverage,
}

module _ {R : Type 0} where
  -- a refusal that is no failure of the database leaves the rows
  abbrev Harmless : {A : Type 0} → Tables R → Answer A × Tables R → Type 0
  Harmless db (refused s, db') = s ≢ internal_server_error → SameRows db db'
  Harmless db (answered a, db') = Unit

  Harmless-trans :
      {A : Type 0} (db db' : Tables R) (x : Answer A × Tables R)
      → SameRows db db'
      → Harmless db' x
      → Harmless db x
  Harmless-trans db db' (refused s, e) (p, q) h = λ n. let (a, b) = h n in (a ∙ p, b ∙ q)
  Harmless-trans db db' (answered a, e) same h = tt

  Harmless-refused :
      {A : Type 0} (db : Tables R) (x : Answer A × Tables R) (s : Status)
      → Harmless db x
      → x.0 ≡ refused s
      → s ≢ internal_server_error
      → SameRows db x.1
  Harmless-refused db (refused r, e) s h eq n = h (λ q. n (cc))
  Harmless-refused db (answered a, e) s h eq n = cc

module _ {R : Type 0} ⦃f64 : F64 R⦄ where
  answer-Harmless :
      (format : CoverageFormat) (p : Parsed R) (db : Tables R)
      (r : DbResult (RatchetResult R) × Tables R)
      → Harmless db (ingest_answer format p.1 r)
  unfolding ingest_answer
  answer-Harmless format p db (failed e, db') = λ n. absurd (n refl)
  answer-Harmless format p db (done r, db') = tt

  scoped-Harmless :
      (around : Around R) (format : CoverageFormat) (p : Parsed R) (u : Answer (Unit {0}))
      (db : Tables R)
      → Harmless db (store_scoped around format p u db)
  unfolding store_scoped
  scoped-Harmless around format p (refused s) db = λ n. (refl, refl)
  scoped-Harmless around format p (answered u) db =
      elim (Bool-cases (unknown_project around.config (get_project p.1.project_id db))) [
        | inl e ↦ rw e (λ n. (refl, refl))
        | inr e ↦ rw e (
            answer-Harmless format p db (
              ingest_snapshot around.order around.config p.1 (some p.0.project.name) around.now db))
      ]

  parsed-Harmless :
      (around : Around R) (key : Option ApiKey) (format : CoverageFormat) (a : Answer (Parsed R))
      (db : Tables R)
      → Harmless db (store_parsed around key format a db)
  unfolding store_parsed
  parsed-Harmless around key format (refused s) db = λ n. (refl, refl)
  parsed-Harmless around key format (answered p) db =
      scoped-Harmless around format p (enforce_project_scope key p.1.project_id) db

  format-Harmless :
      (around : Around R) (params : IngestParams) (body : Text) (key : Option ApiKey)
      (a : Answer CoverageFormat) (db : Tables R)
      → Harmless db (store_format around params body key a db)
  unfolding store_format
  format-Harmless around params body key (refused s) db = λ n. (refl, refl)
  format-Harmless around params body key (answered format) db =
      parsed-Harmless around key format (parse_as around params body format) db

  authenticated-Harmless :
      (around : Around R) (params : IngestParams) (body : Text) (db : Tables R)
      (r : Answer (Option ApiKey) × Tables R)
      → SameRows db r.1
      → Harmless db (store_authenticated around params body r)
  unfolding store_authenticated
  authenticated-Harmless around params body db (refused s, db') same = λ n. same
  authenticated-Harmless around params body db (answered key, db') same =
      Harmless-trans db db' _ same (
        format-Harmless around params body key (format_of around.to_lowercase params.format body)
          db')

  admitted-Harmless :
      (around : Around R) (headers : Headers) (params : IngestParams) (body : Text) (b : Bool)
      (db : Tables R)
      → Harmless db (store_admitted around headers params body b db)
  unfolding store_admitted
  admitted-Harmless around headers params body false db = λ n. (refl, refl)
  admitted-Harmless around headers params body true db =
      authenticated-Harmless around params body db _ (
        authenticate_write-SameRows around.hash_key around.require_api_key headers.x_api_key
          around.now db)

  -- A request that is refused, for any reason but a failure of the database, leaves projects and
  -- snapshots as they are.
  pub ingest_coverage-refused :
      (around : Around R) (headers : Headers) (params : IngestParams) (body : Text)
      (stores : Stores R) (s : Status)
      → (ingest_coverage around headers params body stores).0 ≡ refused s
      → s ≢ internal_server_error
      → SameRows stores.tables (ingest_coverage around headers params body stores).1.tables
  unfolding ingest_coverage
  ingest_coverage-refused around headers params body stores s h n =
      Harmless-refused stores.tables _ s
        (admitted-Harmless around headers params body _ stores.tables) h n

  -- What was asked of an accepted upload by the key that it came with.
  abbrev IsScoped : Option ApiKey → Answer (IngestResponse R) → Type 0
  IsScoped key (refused s) = Unit
  IsScoped key (answered r) = enforce_project_scope key r.project_id ≡ answered tt

  answer-IsScoped :
      (key : Option ApiKey) (format : CoverageFormat) (p : Parsed R)
      (r : DbResult (RatchetResult R) × Tables R)
      → enforce_project_scope key p.1.project_id ≡ answered tt
      → IsScoped key (ingest_answer format p.1 r).0
  unfolding ingest_answer response
  answer-IsScoped key format p (failed e, db) h = tt
  answer-IsScoped key format p (done r, db) h = h

  store_scoped-IsScoped :
      (around : Around R) (key : Option ApiKey) (format : CoverageFormat) (p : Parsed R)
      (u : Answer (Unit {0})) (db : Tables R)
      → enforce_project_scope key p.1.project_id ≡ u
      → IsScoped key (store_scoped around format p u db).0
  unfolding store_scoped
  store_scoped-IsScoped around key format p (refused s) db h = tt
  store_scoped-IsScoped around key format p (answered u) db h =
      elim (Bool-cases (unknown_project around.config (get_project p.1.project_id db))) [
        | inl e ↦ rw e tt
        | inr e ↦ rw e (
            answer-IsScoped key format p
              (ingest_snapshot around.order around.config p.1 (some p.0.project.name) around.now db)
              h)
      ]

  store_parsed-IsScoped :
      (around : Around R) (key : Option ApiKey) (format : CoverageFormat) (a : Answer (Parsed R))
      (db : Tables R)
      → IsScoped key (store_parsed around key format a db).0
  unfolding store_parsed
  store_parsed-IsScoped around key format (refused s) db = tt
  store_parsed-IsScoped around key format (answered p) db =
      store_scoped-IsScoped around key format p (enforce_project_scope key p.1.project_id) db refl

  format-IsScoped :
      (around : Around R) (params : IngestParams) (body : Text) (key : Option ApiKey)
      (a : Answer CoverageFormat) (db : Tables R)
      → IsScoped key (store_format around params body key a db).0
  unfolding store_format
  format-IsScoped around params body key (refused s) db = tt
  format-IsScoped around params body key (answered format) db =
      store_parsed-IsScoped around key format (parse_as around params body format) db

  -- the key of an authentication, with the scope that it has
  abbrev pub IsPermitted : Answer (Option ApiKey) → IngestResponse R → Type 0
  IsPermitted (refused s) r = ⊥
  IsPermitted (answered key) r = enforce_project_scope key r.project_id ≡ answered tt

  answered-IsScoped :
      (key : Option ApiKey) (a : Answer (IngestResponse R)) (r : IngestResponse R)
      → IsScoped key a
      → a ≡ answered r
      → enforce_project_scope key r.project_id ≡ answered tt
  answered-IsScoped key (refused s) r h e = cc
  answered-IsScoped key (answered q) r h e = subst (IsScoped key) e h

  authenticated-IsPermitted :
      (around : Around R) (params : IngestParams) (body : Text)
      (x : Answer (Option ApiKey) × Tables R) (r : IngestResponse R)
      → (store_authenticated around params body x).0 ≡ answered r
      → IsPermitted x.0 r
  unfolding store_authenticated
  authenticated-IsPermitted around params body (refused s, db) r h = cc
  authenticated-IsPermitted around params body (answered key, db) r h =
      answered-IsScoped key _ r
        (format-IsScoped around params body key (format_of around.to_lowercase params.format body)
          db)
        h

  admitted-IsPermitted :
      (around : Around R) (headers : Headers) (params : IngestParams) (body : Text) (b : Bool)
      (db : Tables R) (r : IngestResponse R)
      → (store_admitted around headers params body b db).0 ≡ answered r
      → (b ≡ true)
        × IsPermitted
            (authenticate_write around.hash_key around.require_api_key headers.x_api_key around.now
              db).0
            r
  unfolding store_admitted
  admitted-IsPermitted around headers params body false db r h = cc
  admitted-IsPermitted around headers params body true db r h =
      (refl, authenticated-IsPermitted around params body _ r h)

  -- An upload is accepted only where the rate limiter admits the client and the request is
  -- authenticated, by a key that may write to the project of the answer if there is a key.
  pub ingest_coverage-IsPermitted :
      (around : Around R) (headers : Headers) (params : IngestParams) (body : Text)
      (stores : Stores R) (r : IngestResponse R)
      → (ingest_coverage around headers params body stores).0 ≡ answered r
      → ((check around.locked
            (max_requests around.rate_limit)
            around.instant
            (client_key headers.x_forwarded_for headers.peer)
            stores.buckets).0
          ≡ true)
        × IsPermitted
            (authenticate_write around.hash_key around.require_api_key headers.x_api_key around.now
              stores.tables).0
            r
  unfolding ingest_coverage
  ingest_coverage-IsPermitted around headers params body stores r h =
      admitted-IsPermitted around headers params body _ stores.tables r h
