-- ===== src/Validation/Tests.antt =====
-- The checks at concrete inputs.
use omnivore.Prelude.{◌≡◌, ◌↔◌, true}
use omnivore.Text.Base.{codes}
use omnivore.Validation.{is_safe_repo_path}
use omnivore.Validation.Paths.{IsRepoPath, is_safe_repo_path_iff}

is_safe_repo_path_iff_example :
    (is_safe_repo_path (codes "src/../etc") ≡ true) ↔ IsRepoPath (codes "src/../etc")
is_safe_repo_path_iff_example = is_safe_repo_path_iff (codes "src/../etc")
