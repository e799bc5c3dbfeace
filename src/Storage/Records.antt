-- ===== src/Storage/Records.antt =====
-- The rows of schema.sql, the tables, and the results of statements. A table is the list of its rows,
-- a timestamp a number of seconds.
use omnivore.Prelude.{ℕ, Bool, Option, List}
use omnivore.Prelude.Int.{ℤ}
use omnivore.Text.Base.{Text}
use omnivore.Model.Snapshot.{CoverageSnapshot}

pub data DbError : Type 0 where
  row_not_found constraint protocol : DbError

pub data DbResult {ℓ} (A : Type ℓ) : Type ℓ where
  done : A → DbResult A
  failed : DbError → DbResult A

pub record Project (R : Type 0) : Type 0 where
  pub id : Text
  pub name : Text
  pub description : Option Text
  pub github_repo : Option Text
  pub source_root : Option Text
  pub line_threshold : Option R
  pub branch_threshold : Option R
  pub line_warn_threshold : Option R
  pub branch_warn_threshold : Option R
  pub tags : Option Text
  pub ratchet_enabled : Bool
  pub ratchet_line_floor : Option R
  pub ratchet_branch_floor : Option R
  pub created_at : ℕ
  pub updated_at : ℕ

pub record CreateProject (R : Type 0) : Type 0 where
  pub id : Text
  pub name : Text
  pub description : Option Text
  pub github_repo : Option Text
  pub source_root : Option Text
  pub line_threshold : Option R
  pub branch_threshold : Option R
  pub line_warn_threshold : Option R
  pub branch_warn_threshold : Option R

pub record GlobalSettings (R : Type 0) : Type 0 where
  pub default_line_threshold : R
  pub default_branch_threshold : R
  pub default_line_warn_threshold : R
  pub default_branch_warn_threshold : R
  pub retention_full : ℤ
  pub retention_summary : ℤ

pub record ApiKey : Type 0 where
  pub id : Text
  pub name : Text
  pub key_prefix : Text
  pub key_hash : Text
  pub project_id : Option Text
  pub created_at : ℕ
  pub last_used_at : Option ℕ

pub record Tables (R : Type 0) : Type 0 where
  pub projects : List (Project R)
  pub snapshots : List (CoverageSnapshot R)
  pub api_keys : List ApiKey
  pub settings : Option (GlobalSettings R)
