-- ===== src/Server/Comment.antt =====
-- The token of the comment that `ingest_coverage` of routes/coverage.rs posts.
pub mod Token
use omnivore.Prelude.{Bool, not, Option, none, some}
use omnivore.Prelude.Tests.{if◌then◌else◌}
use omnivore.Text.Base.{Text, eq_ignore_ascii_case}
use omnivore.Validation.{is_valid_repo_slug}

-- Which token a comment is posted with: the caller's, or the server's where the project is linked to
-- the repository.
unfoldable pub linked_token : Option Text → Option Text → Text → Option Text
unfolding eq_ignore_ascii_case
linked_token server_token none repo = none
linked_token server_token (some linked) repo =
    if eq_ignore_ascii_case linked repo then server_token else none

unfoldable pub caller_or_linked : Option Text → Option Text → Option Text → Text → Option Text
unfolding linked_token
caller_or_linked (some t) server_token linked repo = some t
caller_or_linked none server_token linked repo = linked_token server_token linked repo

unfoldable pub comment_token : Option Text → Option Text → Option Text → Text → Option Text
unfolding caller_or_linked is_valid_repo_slug
comment_token caller_token server_token linked_repo repo =
    if not (is_valid_repo_slug repo)
    then none
    else caller_or_linked caller_token server_token linked_repo repo
