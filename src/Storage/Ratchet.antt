-- ===== src/Storage/Ratchet.antt =====
-- `RatchetPolicy` and the check of a project's floors.
use omnivore.Prelude.{ℕ, Bool, false, not, Option, none, some, List, [], ◌∷◌, map}
use omnivore.Prelude.Tests.{if◌then◌else◌}
use omnivore.Prelude.Count.{filter}
use omnivore.Text.Base.{Text, codes, trim, is_empty, any, eq_ignore_ascii_case}
use omnivore.Text.Split.{split}
use omnivore.Float.{F64}
use omnivore.Model.Snapshot.{CoverageSnapshot, nonempty}
use omnivore.Storage.Records.{Project, Tables}
use omnivore.Storage.Tables.{get_project, update_where}

pub record RatchetPolicy : Type 0 where
  pub branches : List Text
  pub require_branch : Bool

abbrev pub default_policy : RatchetPolicy
default_policy = record { branches = codes "main" ∷ codes "master" ∷ []; require_branch = false }

-- The branches of the variable, trimmed and without empty ones.
unfoldable pub listed_branches : Option Text → List Text
unfolding split trim is_empty
listed_branches none = []
listed_branches (some list) = filter (λ b. not (is_empty b)) (map trim (split b',' list))

-- `if !branches.is_empty() { policy.branches = branches }`
unfoldable pub or_default : List Text → List Text
or_default [] = default_policy.branches
or_default (b ∷ bs) = b ∷ bs

unfoldable pub is_true : Option Text → Bool
unfolding eq_ignore_ascii_case trim
is_true none = false
is_true (some v) = eq_ignore_ascii_case (trim v) (codes "true")

-- The two environment variables.
unfoldable pub from_env : Option Text → Option Text → RatchetPolicy
unfolding listed_branches or_default is_true
from_env branches require_branch = record {
  branches = or_default (listed_branches branches);
  require_branch = is_true require_branch;
}

unfoldable pub trimmed : Option Text → Option Text
unfolding trim
trimmed none = none
trimmed (some b) = some (trim b)

unfoldable pub allows_branch : RatchetPolicy → Option Text → Bool
unfolding any eq_ignore_ascii_case
allows_branch policy none = not policy.require_branch
allows_branch policy (some branch) = any (λ b. eq_ignore_ascii_case b branch) policy.branches

unfoldable pub allows : RatchetPolicy → Option Text → Bool
unfolding allows_branch nonempty trimmed
allows policy branch = allows_branch policy (nonempty (trimmed branch))

pub record RatchetResult (R : Type 0) : Type 0 where
  pub line_floor_violated : Bool
  pub branch_floor_violated : Bool
  pub line_floor : Option R
  pub branch_floor : Option R

module _ {R : Type 0} where
  abbrev pub no_result : RatchetResult R
  no_result = record {
    line_floor_violated = false;
    branch_floor_violated = false;
    line_floor = none;
    branch_floor = none;
  }

module _ {R : Type 0} ⦃f64 : F64 R⦄ where
  -- `MAX(COALESCE(floor, 0), ?)`
  unfoldable pub raised : Option R → R → R
  raised none rate = if f64.lt (f64.tenths 0) rate then rate else f64.tenths 0
  raised (some floor) rate = if f64.lt floor rate then rate else floor

  unfoldable pub raise_floors : R → R → ℕ → Project R → Project R
  unfolding raised
  raise_floors line_rate branch_rate now p =
      if p.ratchet_enabled
      then (record p {
        ratchet_line_floor = some (raised p.ratchet_line_floor line_rate);
        ratchet_branch_floor = some (raised p.ratchet_branch_floor branch_rate);
        updated_at = now;
      })
      else p

  unfoldable pub advance_ratchet_floor : Text → R → R → ℕ → Tables R → Tables R
  unfolding update_where raise_floors
  advance_ratchet_floor project_id line_rate branch_rate now db =
      update_where project_id (raise_floors line_rate branch_rate now) db

  -- `floor.map(|floor| rate < floor).unwrap_or(false)`
  unfoldable pub violates : R → Option R → Bool
  violates rate none = false
  violates rate (some floor) = f64.lt rate floor

  -- The result for the snapshot, and the tables with the floors that it raised.
  unfoldable pub ratchet_of :
      RatchetPolicy
      → CoverageSnapshot R
      → ℕ
      → Tables R
      → Option (Project R)
      → RatchetResult R × Tables R
  unfolding violates allows advance_ratchet_floor
  ratchet_of policy snapshot now db none = (no_result, db)
  ratchet_of policy snapshot now db (some p) =
      if p.ratchet_enabled
      then (
        record {
          line_floor_violated = violates snapshot.line_rate p.ratchet_line_floor;
          branch_floor_violated = violates snapshot.branch_rate p.ratchet_branch_floor;
          line_floor = p.ratchet_line_floor;
          branch_floor = p.ratchet_branch_floor;
        },
        if allows policy snapshot.branch
            then advance_ratchet_floor snapshot.project_id snapshot.line_rate snapshot.branch_rate
                now db
            else db,
      )
      else (no_result, db)

  unfoldable pub check_ratchet :
      RatchetPolicy → CoverageSnapshot R → ℕ → Tables R → RatchetResult R × Tables R
  unfolding ratchet_of get_project
  check_ratchet policy snapshot now db =
      ratchet_of policy snapshot now db (get_project snapshot.project_id db)
