-- ===== src/Server/Projects/Tests.antt =====
-- The project API at a concrete input.
use omnivore.Prelude.{ℕ, none, some, []}
use omnivore.Text.Base.{codes}
use omnivore.Float.{millionths}
use omnivore.Storage.Records.{CreateProject, Tables}
use omnivore.Storage.Ingest.Links.{HasLinks}
use omnivore.Server.Projects.{UpdateProject, Caller, create_project, update_project}
use omnivore.Server.Projects.Links.{creates, updates, here, next, Reached-HasLinks}

abbrev caller : Caller
caller = record { hash_key = λ s. s; require_api_key = none; x_api_key = none; now = 5 }

abbrev input : CreateProject ℕ
input = record {
  id = codes "p";
  name = codes "P";
  description = none;
  github_repo = some (codes "o/n");
  source_root = none;
  line_threshold = none;
  branch_threshold = none;
  line_warn_threshold = none;
  branch_warn_threshold = none;
}

abbrev no_rows : Tables ℕ
no_rows = record { projects = []; snapshots = []; api_keys = []; settings = none }

abbrev patch : UpdateProject
patch = record { github_repo = some (codes "../n"); source_root = none }

abbrev one_project : Tables ℕ
one_project = (create_project caller input no_rows).1

Reached-HasLinks_example : HasLinks (update_project caller (codes "p") patch one_project).1.projects
Reached-HasLinks_example =
    Reached-HasLinks
      (next (next here (creates caller input no_rows))
        (updates caller (codes "p") patch one_project))
      tt
