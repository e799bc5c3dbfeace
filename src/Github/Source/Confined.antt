-- ===== src/Github/Source/Confined.antt =====
-- About the URL that `fetch_source` requests, as an HTTP client reads it.
use omnivore.Prelude.{◌≡◌, refl, sym, ◌≢◌, false, Option, none, some, List, [], ◌∷◌, ◌++◌, arith}
use omnivore.Prelude.Tests.{if◌then◌else◌}
use omnivore.Text.Base.{Text, codes, text_eq, text_eq_iff, All}
use omnivore.Text.Split.{split, split-append}
use omnivore.Model.Snapshot.{unwrap_or}
use omnivore.Validation.{name_char, owner_char, unsafe_char, is_valid_git_ref}
use omnivore.Validation.Accepts.{
  IsName, IsSafePath, is_valid_repo_slug_iff, is_safe_repo_path-IsSafePath, is_valid_git_ref_iff,
  owner-Lacks, name-Lacks,
}
use omnivore.Github.Source.{raw_host, bad_ref, fetch_url}
use mathlib.Core.List.{append_assoc, append-nil}

drop_last : List Text → List Text
drop_last [] = []
drop_last (p ∷ []) = []
drop_last (p ∷ (q ∷ ps)) = p ∷ drop_last (q ∷ ps)

-- What an HTTP client does to the segments of a URL's path (RFC 3986, section 5.2.4): `.` goes, and
-- `..` goes together with the segment before it.
pub remove_dot_segments : List Text → List Text → List Text
unfolding drop_last
remove_dot_segments out [] = out
remove_dot_segments out (seg ∷ segs) =
    let here = remove_dot_segments out segs in
    let up = remove_dot_segments (drop_last out) segs in
    let down = remove_dot_segments (out ++ seg ∷ []) segs in
    if text_eq seg (codes ".") then here else if text_eq seg (codes "..") then up else down

abbrev NoDots : Text → Type 0
NoDots seg = (seg ≢ []) × (seg ≢ codes ".") × (seg ≢ codes "..")

remove_dot_segments_fixed :
    (out segs : List Text) → All NoDots segs → remove_dot_segments out segs ≡ out ++ segs
unfolding remove_dot_segments
remove_dot_segments_fixed out [] h = sym (append-nil out)
remove_dot_segments_fixed out (seg ∷ segs) (p, ps) = ground (
  arith,
  text_eq_iff seg (codes "."),
  text_eq_iff seg (codes ".."),
  remove_dot_segments_fixed (out ++ seg ∷ []) segs ps,
  append_assoc out (seg ∷ []) segs,
)

ref-IsName :
    (sha : Option Text) → bad_ref sha ≡ false → IsName 100 name_char (unwrap_or sha (codes "HEAD"))
unfolding bad_ref unwrap_or
ref-IsName none h = (is_valid_git_ref_iff (codes "HEAD")).0 (unfold is_valid_git_ref in refl)
ref-IsName (some sha) h = (is_valid_git_ref_iff sha).0 (ground arith)

-- the path of the URL, behind the host
url_path : Text → Text → Text → Text → Text
url_path owner name git_ref path = (owner ++ b'/' ∷ name) ++ b'/' ∷ (git_ref ++ b'/' ∷ path)

module _ (owner name git_ref path : Text) (o : IsName 39 owner_char owner)
    (n : IsName 100 name_char name) (r : IsName 100 name_char git_ref) (p : IsSafePath path) where
  split-url_path :
      split b'/' (url_path owner name git_ref path) ≡ owner ∷ (name ∷ (git_ref ∷ split b'/' path))
  unfolding url_path
  split-url_path = rw (
    append_assoc,
    split-append b'/' owner _ (owner-Lacks 39 owner o),
    split-append b'/' name _ (name-Lacks 100 name n),
    split-append b'/' git_ref path (name-Lacks 100 git_ref r),
  )

  url_path-fixed :
      remove_dot_segments [] (split b'/' (url_path owner name git_ref path))
      ≡ split b'/' (url_path owner name git_ref path)
  url_path-fixed = rw split-url_path (
      remove_dot_segments_fixed [] _ (
        (o.nonempty, o.not_dot, o.not_dots),
        ((n.nonempty, n.not_dot, n.not_dots), ((r.nonempty, r.not_dot, r.not_dots), p.segments)),
      ))

-- A URL that is requested is that of a slug `owner/name`, the ref and the path, its path has these
-- segments and no other, and they are what is left when a client has removed the dot segments.
pub fetch_url_confined :
    (repo path : Text) (sha : Option Text) (url : Text)
    → fetch_url repo path sha ≡ some url
    → (owner : Text) × (name : Text) × (rest : Text) × (url ≡ raw_host ++ rest)
      × (repo ≡ owner ++ b'/' ∷ name)
      × (split b'/' rest ≡ owner ∷ (name ∷ (unwrap_or sha (codes "HEAD") ∷ split b'/' path)))
      × (remove_dot_segments [] (split b'/' rest) ≡ split b'/' rest)
      × All (λ c. unsafe_char c ≡ false) path
unfolding fetch_url url_path
fetch_url_confined repo path sha url h =
    let (owner, name, e, o, n) = (is_valid_repo_slug_iff repo).0 (ground arith) in
    let p = (is_safe_repo_path-IsSafePath path).0 (ground arith) in
    let git_ref = unwrap_or sha (codes "HEAD") in
    let r = ref-IsName sha (ground arith) in
    (
      owner,
      name,
      url_path owner name git_ref path,
      ground (arith, e),
      e,
      split-url_path owner name git_ref path o n r p,
      url_path-fixed owner name git_ref path o n r p,
      p.chars,
    )
