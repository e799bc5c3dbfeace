-- ===== src/Server/Settings.antt =====
-- The forms of crates/omnivore-server/src/routes/settings.rs behind the guards that
-- crates/omnivore-server/src/lib.rs puts before them. The parsing of `f64`, identifiers, raw keys,
-- their hash and the clock are arguments. A page that is rendered is not text here.
pub mod Permitted
pub mod Own
pub mod AnyKey
pub mod Links
pub mod Tests
use omnivore.Prelude.{ℕ, Bool, true, false, ◌&&◌, Option, none, some, List, [], ◌∷◌, ◌++◌, map}
use omnivore.Prelude.Tests.{if◌then◌else◌}
use omnivore.Prelude.Lists.{take}
use omnivore.Prelude.Int.{ℤ, pos, max_ℤ}
use omnivore.Text.Base.{Text, codes, text_eq, trim, is_empty}
use omnivore.Text.Split.{split, nonempty_parts}
use omnivore.Text.Number.{parse_i64}
use omnivore.Float.{F64}
use omnivore.Model.Snapshot.{nonempty}
use omnivore.Storage.Records.{DbResult, done, failed, GlobalSettings, Tables}
use omnivore.Storage.Tables.{
  delete_project, update_global_settings, update_project_thresholds, update_project_tags,
  update_project_ratchet,
}
use omnivore.Storage.Keys.{create_api_key, delete_api_key}
use omnivore.Storage.Caches.{CachedPermission}
use omnivore.Server.Answer.{
  Status, bad_request, forbidden, internal_server_error, Answer, refused, answered,
}
use omnivore.Server.Csrf.{Jar, verify}
use omnivore.Server.Login.{
  Site, App, Guard, passed, to_login, denied, require_admin, require_project_write,
}

-- What comes from outside in a request.
pub record Outer (R : Type 0) : Type 0 where
  pub parse_f64 : Text → Option R
  pub new_id : Text
  pub raw_key : Text
  pub hash_key : Text → Text
  pub now : ℕ

pub data Response : Type 0 where
  redirect : Text → Response
  -- the page that shows a new key once
  key_created : Text → Response
  failure : Status → Response

pub record Thresholds : Type 0 where
  pub line : Option Text
  pub branch : Option Text
  pub line_warn : Option Text
  pub branch_warn : Option Text

pub record SettingsForm : Type 0 where
  pub thresholds : Thresholds
  pub retention_full : Option Text
  pub retention_summary : Option Text

pub record RatchetForm : Type 0 where
  pub ratchet_enabled : Option Text
  pub line_floor : Option Text
  pub branch_floor : Option Text

-- a number of snapshots to keep, and no less than the least
unfoldable pub retention : Option Text → ℤ → ℤ → ℤ
unfolding nonempty parse_i64
retention field least default = elim (nonempty field) [
  | none ↦ default
  | some s ↦ elim (parse_i64 s) [ none ↦ default | some v ↦ max_ℤ v least ]
]

module _ {R : Type 0} ⦃f64 : F64 R⦄ where
  -- `clamp(0.0, 1.0)`
  unfoldable pub clamp : R → R
  clamp v =
      if f64.lt v (f64.tenths 0)
      then f64.tenths 0
      else if f64.lt (f64.tenths 10) v
      then f64.tenths 10
      else v

  -- A percentage of a form; an empty one, and one that is no number, is none.
  unfoldable pub percent : Outer R → Option Text → Option R
  unfolding nonempty clamp
  percent out field = elim (nonempty field) [
    | none ↦ none
    | some s ↦ elim (out.parse_f64 s) [
      | none ↦ none
      | some v ↦ some (clamp (f64.div v (f64.of_i64 (pos 100))))
    ]
  ]

  or_tenths : Option R → ℕ → R
  or_tenths none n = f64.tenths n
  or_tenths (some r) n = r

  unfoldable pub settings_of : Outer R → SettingsForm → GlobalSettings R
  unfolding percent or_tenths retention
  settings_of out form = record {
    default_line_threshold = or_tenths (percent out form.thresholds.line) 8;
    default_branch_threshold = or_tenths (percent out form.thresholds.branch) 8;
    default_line_warn_threshold = or_tenths (percent out form.thresholds.line_warn) 5;
    default_branch_warn_threshold = or_tenths (percent out form.thresholds.branch_warn) 5;
    retention_full = retention form.retention_full (pos 1) (pos 30);
    retention_summary = retention form.retention_summary (pos 0) (pos 60);
  }

-- `parts.join(", ")`
unfoldable pub join_comma : List Text → Text
join_comma [] = []
join_comma (p ∷ []) = p
join_comma (p ∷ (q ∷ ps)) = p ++ (b',' ∷ (b' ' ∷ join_comma (q ∷ ps)))

-- The tags without the white space around them, and without empty ones; none where there is nothing.
unfoldable pub normalized_tags : Option Text → Option Text
unfolding join_comma nonempty_parts split trim is_empty
normalized_tags none = none
normalized_tags (some s) =
    if is_empty (trim s) then none else some (join_comma (nonempty_parts (map trim (split b',' s))))

-- what a form for a project asks for
pub data ProjectAction : Type 0 where
  save_thresholds : Thresholds → ProjectAction
  save_tags : Option Text → ProjectAction
  save_ratchet : RatchetForm → ProjectAction
  delete : ProjectAction
  create_key : Text → ProjectAction
  delete_key : Text → ProjectAction

pub data AdminAction : Type 0 where
  save_settings : SettingsForm → AdminAction
  create_global_key : Text → AdminAction
  delete_global_key : Text → AdminAction

settings_path : Text → Text
settings_path project_id = codes "/projects/" ++ (project_id ++ codes "/settings")

module _ {R : Type 0} where
  key_result : Outer R → Tables R → DbResult (Tables R) → Response × Tables R
  key_result out db (failed e) = (failure internal_server_error, db)
  key_result out db (done db') = (key_created out.raw_key, db')

  unfoldable pub create_key_named : Outer R → Text → Option Text → Tables R → Response × Tables R
  unfolding key_result create_api_key trim is_empty
  create_key_named out name project_id db =
      if is_empty (trim name)
      then (failure bad_request, db)
      else key_result out db (
          create_api_key out.new_id (out.hash_key out.raw_key) (take 8 out.raw_key) (trim name)
            project_id out.now db)

module _ {R : Type 0} ⦃f64 : F64 R⦄ where
  -- A handler behind the check of its form's token.
  unfoldable pub run_project : Outer R → Text → ProjectAction → Tables R → Response × Tables R
  unfolding settings_path percent text_eq update_project_thresholds normalized_tags
      update_project_tags update_project_ratchet delete_project create_key_named delete_api_key
  run_project out id (save_thresholds t) db = (
    redirect (settings_path id),
    update_project_thresholds id (percent out t.line) (percent out t.branch)
        (percent out t.line_warn) (percent out t.branch_warn) out.now db,
  )
  run_project out id (save_tags tags) db =
      (redirect (settings_path id), update_project_tags id (normalized_tags tags) out.now db)
  run_project out id (save_ratchet f) db = (
    redirect (settings_path id),
    update_project_ratchet id
        (elim f.ratchet_enabled [ none ↦ false | some v ↦ text_eq v (codes "on") ])
        (percent out f.line_floor) (percent out f.branch_floor) out.now db,
  )
  run_project out id delete db = (redirect (codes "/"), delete_project id db)
  run_project out id (create_key name) db = create_key_named out name (some id) db
  run_project out id (delete_key key_id) db =
      (redirect (settings_path id), delete_api_key key_id db)

  unfoldable pub run_admin : Outer R → AdminAction → Tables R → Response × Tables R
  unfolding settings_of update_global_settings create_key_named delete_api_key
  run_admin out (save_settings form) db =
      (redirect (codes "/settings"), update_global_settings (settings_of out form) db)
  run_admin out (create_global_key name) db = create_key_named out name none db
  run_admin out (delete_global_key key_id) db =
      (redirect (codes "/settings"), delete_api_key key_id db)

  -- `csrf::verify(&jar, form.csrf_token)?` before the rest
  unfoldable pub with_token :
      Site → Jar → Option Text → (Tables R → Response × Tables R) → Tables R → Response × Tables R
  unfolding verify
  with_token site jar token handler db = elim (verify site.signing jar token) [
    | refused s ↦ (failure s, db)
    | answered _ ↦ handler db
  ]

  -- a handler behind a guard
  unfoldable pub behind : Guard → (Tables R → Response × Tables R) → Tables R → Response × Tables R
  behind (passed user) handler db = handler db
  behind to_login handler db = (redirect (codes "/auth/login"), db)
  behind denied handler db = (failure forbidden, db)

  -- A form that is sent to a route of a project, with the token that it carries.
  unfoldable pub project_route :
      Site → Outer R → Jar → Text → Option Text → ProjectAction → App R → Response × App R
  unfolding behind require_project_write with_token run_project
  project_route site out jar id token action app =
      let (guard, permissions) = require_project_write site jar id out.now app in
      let (response, db) =
        behind guard (with_token site jar token (run_project out id action)) app.tables in
      (response, record app { tables = db; permissions = permissions })

  unfoldable pub admin_route :
      Site → Outer R → Jar → Option Text → AdminAction → App R → Response × App R
  unfolding behind require_admin with_token run_admin
  admin_route site out jar token action app =
      let guard = require_admin site jar out.now app.sessions in
      let (response, db) =
        behind guard (with_token site jar token (run_admin out action)) app.tables in
      (response, record app { tables = db })
