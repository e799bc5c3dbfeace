-- ===== src/Github/Tests.antt =====
-- Source requests at concrete inputs.
use omnivore.Prelude.{ℕ, none, List, ◌≡◌, refl, false, some, [], ◌∷◌, ◌++◌}
use omnivore.Text.Base.{Text, codes, All}
use omnivore.Text.Split.{split}
use omnivore.Model.Snapshot.{unwrap_or}
use omnivore.Validation.{unsafe_char, is_valid_repo_slug, is_safe_repo_path, is_valid_git_ref}
use omnivore.Prelude.Int.{pos}
use omnivore.Model.Report.{FileCoverage}
use omnivore.Github.Source.{raw_host, fetch_url}
use omnivore.Github.Source.Confined.{remove_dot_segments, fetch_url_confined}

abbrev sample_url : Text
sample_url = codes "https://raw.githubusercontent.com/o/n/main/src/a.rs"

fetch_url_confined_example :
    (owner : Text) × (name : Text) × (rest : Text) × (sample_url ≡ raw_host ++ rest)
    × (codes "o/n" ≡ owner ++ b'/' ∷ name)
    × (split b'/' rest
        ≡ owner
          ∷ (name
              ∷ (unwrap_or (some (codes "main")) (codes "HEAD") ∷ split b'/' (codes "src/a.rs"))))
    × (remove_dot_segments [] (split b'/' rest) ≡ split b'/' rest)
    × All (λ c. unsafe_char c ≡ false) (codes "src/a.rs")
unfolding fetch_url raw_host is_valid_repo_slug is_safe_repo_path is_valid_git_ref
fetch_url_confined_example =
    fetch_url_confined (codes "o/n") (codes "src/a.rs") (some (codes "main")) sample_url refl

abbrev rated : Text → ℕ → FileCoverage ℕ
rated path rate = record {
  path = path;
  line_rate = rate;
  branch_rate = 0;
  lines = [];
  branches_covered = pos 0;
  branches_total = pos 0;
  source_content = none;
}

abbrev before : List (FileCoverage ℕ)
before = rated (codes "a.rs") 500_000 ∷ (rated (codes "b.rs") 500_000 ∷ [])

abbrev after : List (FileCoverage ℕ)
after =
    rated (codes "a.rs") 900_000
    ∷ (rated (codes "b.rs") 400_000 ∷ (rated (codes "c.rs") 700_000 ∷ []))
