-- ===== src/Server/Comment/Token.antt =====
-- About `ingest_coverage`: the token that a comment is posted with.
use omnivore.Prelude.{◌≡◌, ◌⊎◌, refl, true, Option, none, some, inl, inr, arith}
use omnivore.Prelude.Tests.{Bool-cases}
use omnivore.Text.Base.{Text, eq_ignore_ascii_case}
use omnivore.Validation.{is_valid_repo_slug}
use omnivore.Server.Comment.{linked_token, caller_or_linked, comment_token}

-- the token of the caller, or that of the server for a repository that the project is linked to
abbrev pub IsGranted : Option Text → Option Text → Option Text → Text → Text → Type 0
IsGranted caller server linked repo t =
    (caller ≡ some t)
    ⊎ ((caller ≡ none)
        × (server ≡ some t)
        × (l : Text) × (linked ≡ some l)
        × (eq_ignore_ascii_case l repo ≡ true))

caller_or_linked-IsGranted :
    (caller server linked : Option Text) (repo t : Text)
    → caller_or_linked caller server linked repo ≡ some t
    → IsGranted caller server linked repo t
unfolding caller_or_linked linked_token
caller_or_linked-IsGranted (some c) server linked repo t h = inl h
caller_or_linked-IsGranted none server none repo t h = cc
caller_or_linked-IsGranted none server (some l) repo t h =
    elim (Bool-cases (eq_ignore_ascii_case l repo)) [
      | inl e ↦ inr (refl, ground (arith, e), l, refl, e)
      | inr e ↦ absurd (ground (arith, e))
    ]

-- A comment is posted only to a well-formed repository, and with the server's token only where the
-- caller gave none and the project is linked to that repository, upper and lower case aside.
pub comment_token-IsGranted :
    (caller server linked : Option Text) (repo t : Text)
    → comment_token caller server linked repo ≡ some t
    → (is_valid_repo_slug repo ≡ true) × IsGranted caller server linked repo t
unfolding comment_token
comment_token-IsGranted caller server linked repo t h =
    elim (Bool-cases (is_valid_repo_slug repo)) [
      | inl e ↦ (e, caller_or_linked-IsGranted caller server linked repo t (ground (arith, e)))
      | inr e ↦ absurd (ground (arith, e))
    ]
