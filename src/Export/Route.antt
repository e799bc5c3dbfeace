-- ===== src/Export/Route.antt =====
-- `export_report` of crates/omnivore-server/src/routes/export.rs. The printing of a timestamp as a date,
-- and the order of rows by their distance to a date, are arguments.
use omnivore.Prelude.{
  ℕ, ◌≤◌, ◌<◌, ◌≡◌, refl, Bool, true, false, ◌||◌, Option, none, some, inl, inr, List, [], ◌∷◌, map,
  arith,
}
use omnivore.Prelude.Tests.{◌==◌, if◌then◌else◌, Bool-cases}
use omnivore.Prelude.Lists.{length, take, length-take, All, All-take}
use omnivore.Text.Base.{Text, codes, text_eq, is_ascii_alphanumeric, all, any}
use omnivore.Float.{F64}
use omnivore.Model.Report.{FileCoverage}
use omnivore.Model.Snapshot.{CoverageSnapshot, nonempty}
use omnivore.Storage.Records.{Project, Tables}
use omnivore.Storage.Tables.{get_project}
use omnivore.Storage.Retention.{Order}
use omnivore.Storage.Queries.{
  get_targets_for_project, get_snapshot_by_id, get_snapshot_closest_to_date,
  get_latest_snapshot_by_target,
}
use omnivore.Server.Answer.{not_found, Answer, refused, answered}
use omnivore.Export.{ExportReport, build_export_report}

pub record ReportQuery : Type 0 where
  pub format : Option Text
  pub current : Option Text
  pub baseline : Option Text

pub safe_char : ℕ → Bool
unfolding is_ascii_alphanumeric
safe_char c = is_ascii_alphanumeric c || c == b'-' || c == b'_' || c == b'.'

clean : ℕ → ℕ
unfolding safe_char
clean c = if safe_char c then c else b'-'

-- The identifier with other characters replaced, cut to 100 characters; a text of dashes is no name.
-- What is left of such a text when dashes are trimmed off is empty exactly if it is all dashes.
unfoldable pub sanitize_filename : Text → Text
unfolding clean all
sanitize_filename id =
    let cleaned = take 100 (map clean id) in
    if all (λ c. c == b'-') cleaned then codes "project" else cleaned

-- what the export takes from outside
pub record Dates (R : Type 0) : Type 0 where
  pub format_date : ℕ → Text
  pub to_rfc3339 : ℕ → Text
  pub decode : Text → Option (List (FileCoverage R))
  pub order : Order R
  pub order_near : Text → Order R

module _ {R : Type 0} where
  -- for each target what a query finds; what it does not find is left out
  found : (Text → Option (CoverageSnapshot R)) → List Text → List (CoverageSnapshot R)
  found query [] = []
  found query (t ∷ ts) = elim (query t) [ none ↦ found query ts | some s ↦ s ∷ found query ts ]

  picked : Tables R → Option Text → Option (CoverageSnapshot R)
  unfolding nonempty get_snapshot_by_id
  picked db id = elim (nonempty id) [ none ↦ none | some i ↦ get_snapshot_by_id i db ]

  near : Dates R → Text → Tables R → CoverageSnapshot R → Text → Option (CoverageSnapshot R)
  unfolding get_snapshot_closest_to_date
  near out project_id db at target =
      get_snapshot_closest_to_date out.order_near project_id target (out.to_rfc3339 at.created_at)
        db

  latest_of : Dates R → Text → Tables R → List Text → List (CoverageSnapshot R)
  unfolding found get_latest_snapshot_by_target
  latest_of out project_id db targets =
      found (λ t. get_latest_snapshot_by_target out.order project_id t db) targets

  near_or_latest :
      Dates R → Text → Tables R → List Text → List (CoverageSnapshot R) → List (CoverageSnapshot R)
  unfolding latest_of
  near_or_latest out project_id db targets [] = latest_of out project_id db targets
  near_or_latest out project_id db targets (s ∷ ss) = s ∷ ss

  -- near the date of the snapshot that was picked, else the latest of each target
  unfoldable pub current_snapshots :
      Dates R → Text → Tables R → Option Text → List (CoverageSnapshot R)
  unfolding picked found near near_or_latest get_targets_for_project
  current_snapshots out project_id db current =
      let targets = get_targets_for_project project_id db in
      near_or_latest out project_id db targets (elim (picked db current) [
        | none ↦ []
        | some at ↦ found (near out project_id db at) targets
      ])

  -- a snapshot that is not among the current ones
  unless_current :
      List (CoverageSnapshot R) → Option (CoverageSnapshot R) → Option (CoverageSnapshot R)
  unfolding any text_eq
  unless_current current none = none
  unless_current current (some s) =
      if any (λ (c : CoverageSnapshot R). text_eq c.id s.id) current then none else some s

  unfoldable pub baseline_snapshots :
      Dates R
      → Text
      → Tables R
      → Option Text
      → List (CoverageSnapshot R)
      → List (Option (CoverageSnapshot R))
  unfolding picked near unless_current get_targets_for_project
  baseline_snapshots out project_id db baseline current = elim (picked db baseline) [
    | none ↦ map (λ s. none) current
    | some at ↦ elim (get_targets_for_project project_id db) [
      | [] ↦ map (λ s. none) current
      | t ∷ ts ↦ map (λ t'. unless_current current (near out project_id db at t')) (t ∷ ts)
    ]
  ]

module _ {R : Type 0} ⦃f64 : F64 R⦄ where
  answer_with :
      Dates R
      → ReportQuery
      → Tables R
      → Project R
      → List (CoverageSnapshot R)
      → Answer (ExportReport R × Bool × Text)
  unfolding build_export_report baseline_snapshots sanitize_filename text_eq
  answer_with out params db project [] = refused not_found
  answer_with out params db project (s ∷ ss) = answered (
    build_export_report out.format_date out.decode project (s ∷ ss)
        (baseline_snapshots out project.id db params.baseline (s ∷ ss)),
    elim params.format [ none ↦ false | some f ↦ text_eq f (codes "json") ],
    sanitize_filename project.id,
  )

  -- The report, whether it is rendered as JSON, and the identifier in the name of the file.
  unfoldable pub export_report :
      Dates R → Text → ReportQuery → Tables R → Answer (ExportReport R × Bool × Text)
  unfolding get_project answer_with current_snapshots
  export_report out project_id params db = elim (get_project project_id db) [
    | none ↦ refused not_found
    | some project ↦
        answer_with out params db project (current_snapshots out project_id db params.current)
  ]

-- a character that can stand in a quoted file name
abbrev pub IsSafeChar : ℕ → Type 0
IsSafeChar c = safe_char c ≡ true

clean-IsSafeChar : (c : ℕ) → IsSafeChar (clean c)
unfolding clean safe_char is_ascii_alphanumeric
clean-IsSafeChar c = ground arith

map-clean : (s : Text) → All IsSafeChar (map clean s)
map-clean [] = tt
map-clean (c ∷ s) = (clean-IsSafeChar c, map-clean s)

nonempty_of_some : (p : ℕ → Bool) (s : Text) → all p s ≡ false → 0 < length s
unfolding all
nonempty_of_some p [] e = absurd (cc)
nonempty_of_some p (c ∷ s) e = omega arith

abbrev IsName : Text → Type 0
IsName s = All IsSafeChar s × (0 < length s) × (length s ≤ 100)

chosen-IsSafe :
    (cleaned : Text)
    → All IsSafeChar cleaned
    → length cleaned ≤ 100
    → IsName (if all (λ c. c == b'-') cleaned then codes "project" else cleaned)
unfolding safe_char is_ascii_alphanumeric
chosen-IsSafe cleaned h l = elim (Bool-cases (all (λ c. c == b'-') cleaned)) [
  | inl e ↦
      rw e ((refl, (refl, (refl, (refl, (refl, (refl, (refl, tt))))))), omega arith, omega arith)
  | inr e ↦ rw e (h, nonempty_of_some (λ c. c == b'-') cleaned e, l)
]

-- The name is of safe characters, not empty and not longer than 100 characters.
pub sanitize_filename-IsSafe :
    (id : Text)
    → All IsSafeChar (sanitize_filename id)
      × (0 < length (sanitize_filename id))
      × (length (sanitize_filename id) ≤ 100)
unfolding sanitize_filename
sanitize_filename-IsSafe id =
    let cleaned = take 100 (map clean id) in
    chosen-IsSafe cleaned (All-take _ 100 (map clean id) (map-clean id))
      (omega (arith, length-take 100 (map clean id)))
