-- ===== src/Server/Embed.antt =====
-- crates/omnivore-server/src/routes/embed.rs, but for the drawing: what a chart of a trend shows.
use omnivore.Prelude.{ℕ, Bool, true, false, not, ◌&&◌, Option, none, some, List, [], ◌∷◌, ◌++◌, map}
use mathlib.Core.List.{reverse}
use omnivore.Prelude.Tests.{if◌then◌else◌, ◌==◌}
use omnivore.Prelude.Int.{ℤ, pos, ltb_ℤ}
use omnivore.Text.Base.{Text, codes, text_eq, is_control}
use omnivore.Float.{F64}
use omnivore.Model.Snapshot.{CoverageSnapshot}
use omnivore.Storage.Records.{Project, GlobalSettings, Tables}
use omnivore.Storage.Tables.{get_project, get_global_settings}
use omnivore.Storage.Retention.{Order}
use omnivore.Storage.Queries.{get_snapshots_for_project_by_series}
use omnivore.Server.Series.{Pair, SeriesParams, resolve_series_or_newest}
use omnivore.Server.Badge.{threshold_of, is_branch}

pub record EmbedQuery (R : Type 0) : Type 0 where
  pub limit : Option ℤ
  pub metric : Option Text
  pub series : SeriesParams
  pub width : Option R
  pub height : Option R
  pub theme : Option Text

-- `unwrap_or(30).clamp(1, 365)`
unfoldable pub chart_limit : Option ℤ → ℤ
chart_limit none = pos 30
chart_limit (some n) = if ltb_ℤ n (pos 1) then pos 1 else if ltb_ℤ (pos 365) n then pos 365 else n

xml_char : ℕ → Text
unfolding is_control
xml_char c =
    if c == b'&'
    then codes "&amp;"
    else if c == b'<'
    then codes "&lt;"
    else if c == b'>'
    then codes "&gt;"
    else if c == b'"'
    then codes "&quot;"
    else if c == b'\''
    then codes "&apos;"
    else if is_control c && not (c == b'\t')
    then []
    else c ∷ []

unfoldable pub xml_escape : Text → Text
unfolding xml_char
xml_escape [] = []
xml_escape (c ∷ s) = xml_char c ++ xml_escape s

-- what is drawn, less its geometry
pub record Chart (R : Type 0) : Type 0 where
  pub rates : List R
  -- the escaped name
  pub project_name : Text
  pub threshold : R
  pub warn_threshold : R
  pub width : R
  pub height : R
  pub dark : Bool

module _ {R : Type 0} where
  rate_in : Bool → CoverageSnapshot R → R
  rate_in true s = s.branch_rate
  rate_in false s = s.line_rate

  charted : Order R → Text → Option Pair → ℤ → Tables R → List (CoverageSnapshot R)
  unfolding get_snapshots_for_project_by_series
  charted order project_id none limit db = []
  charted order project_id (some (t, s)) limit db =
      get_snapshots_for_project_by_series order
        (record { project_id = project_id; target = t; source = s }) limit db

  name_of : Option (Project R) → Text → Text
  name_of none project_id = project_id
  name_of (some p) project_id = p.name

  -- the threshold of the metric, and the one to warn at
  thresholds_of : Bool → Option (Project R) → GlobalSettings R → R × R
  unfolding threshold_of
  thresholds_of true project global = (
    threshold_of project (λ p. p.branch_threshold) global.default_branch_threshold,
    threshold_of project (λ p. p.branch_warn_threshold) global.default_branch_warn_threshold,
  )
  thresholds_of false project global = (
    threshold_of project (λ p. p.line_threshold) global.default_line_threshold,
    threshold_of project (λ p. p.line_warn_threshold) global.default_line_warn_threshold,
  )

module _ {R : Type 0} ⦃f64 : F64 R⦄ where
  -- `is_finite` comes from outside.
  unfoldable pub clamp_dimension : (R → Bool) → Option R → R → R → R → R
  clamp_dimension is_finite none default least most = default
  clamp_dimension is_finite (some v) default least most =
      if not (is_finite v)
      then default
      else if f64.lt v least
      then least
      else if f64.lt most v
      then most
      else v

  -- The snapshots come newest first, and are drawn from the oldest on.
  unfoldable pub trend_embed : (R → Bool) → Order R → Text → EmbedQuery R → Tables R → Chart R
  unfolding chart_limit clamp_dimension charted rate_in name_of thresholds_of is_branch text_eq
      xml_escape resolve_series_or_newest get_project get_global_settings
  trend_embed is_finite order project_id params db =
      let branch = is_branch params.metric in
      let project = get_project project_id db in
      let (threshold, warn) = thresholds_of branch project (get_global_settings db) in
      let series = resolve_series_or_newest order params.series project_id db in
      record {
        rates =
            map (rate_in branch)
              (reverse (charted order project_id series (chart_limit params.limit) db));
        project_name = xml_escape (name_of project project_id);
        threshold = threshold;
        warn_threshold = warn;
        width =
            clamp_dimension is_finite params.width (f64.tenths 4_000) (f64.tenths 1_200)
              (f64.tenths 40_000);
        height =
            clamp_dimension is_finite params.height (f64.tenths 1_200) (f64.tenths 600)
              (f64.tenths 20_000);
        dark = elim params.theme [ none ↦ false | some t ↦ text_eq t (codes "dark") ];
      }
