-- ===== src/Validation.antt =====
-- crates/omnivore-core/src/validation.rs, and `is_valid_git_ref` of github/source.rs: the checks of
-- the values that are put into outbound URLs.
pub mod Accepts
pub mod Paths
mod Tests
use omnivore.Prelude.{ℕ, Bool, true, false, not, ◌&&◌, ◌||◌, List, [], ◌∷◌}
use omnivore.Prelude.Tests.{leb, ltb, ◌==◌, if◌then◌else◌}
use omnivore.Text.Base.{
  Text, codes, text_eq, len, is_empty, is_control, is_ascii_alphanumeric, starts_with, all, any,
}
use omnivore.Text.Split.{split}

unfoldable pub owner_char : ℕ → Bool
unfolding is_ascii_alphanumeric
owner_char c = is_ascii_alphanumeric c || c == b'-' || c == b'_'

unfoldable pub name_char : ℕ → Bool
unfolding is_ascii_alphanumeric
name_char c = is_ascii_alphanumeric c || c == b'-' || c == b'_' || c == b'.'

unfoldable pub is_valid_owner : Text → Bool
unfolding owner_char is_empty len text_eq all
is_valid_owner owner =
    not (is_empty owner)
    && leb (len owner) 39
    && not (text_eq owner (codes "."))
    && not (text_eq owner (codes ".."))
    && all owner_char owner

unfoldable pub is_valid_repo_name : Text → Bool
unfolding name_char is_empty len text_eq all
is_valid_repo_name name =
    not (is_empty name)
    && leb (len name) 100
    && not (text_eq name (codes "."))
    && not (text_eq name (codes ".."))
    && all name_char name

-- the pattern `(Some(owner), Some(name), None)` on the first three parts
slug_parts : List Text → Bool
unfolding is_valid_owner is_valid_repo_name
slug_parts (owner ∷ (name ∷ [])) = is_valid_owner owner && is_valid_repo_name name
slug_parts _ = false

unfoldable pub is_valid_repo_slug : Text → Bool
unfolding slug_parts split
is_valid_repo_slug repo = slug_parts (split b'/' repo)

unfoldable pub unsafe_char : ℕ → Bool
unfolding is_control
unsafe_char c = is_control c || c == b'\\' || c == b'?' || c == b'#' || c == b'%'

unfoldable pub safe_segment : Text → Bool
unfolding is_empty text_eq
safe_segment seg =
    not (is_empty seg) && not (text_eq seg (codes ".")) && not (text_eq seg (codes ".."))

unfoldable pub is_safe_repo_path : Text → Bool
unfolding is_empty len starts_with unsafe_char safe_segment split all any
is_safe_repo_path path =
    if is_empty path || ltb 1024 (len path) || starts_with (codes "/") path
    then false
    else if any unsafe_char path
    then false
    else all safe_segment (split b'/' path)

unfoldable pub is_valid_git_ref : Text → Bool
unfolding name_char is_empty len text_eq all
is_valid_git_ref git_ref =
    not (is_empty git_ref)
    && leb (len git_ref) 100
    && not (text_eq git_ref (codes "."))
    && not (text_eq git_ref (codes ".."))
    && all name_char git_ref
