-- ===== src/Storage/Caches/Expiry.antt =====
-- About the sessions and the two caches of storage/db.rs: what is served, and when.
use omnivore.Prelude.{
  ℕ, ◌+◌, ◌-◌, ◌≤◌, ◌≡◌, refl, false, not, ◌&&◌, Option, none, some, List, [], ◌∷◌, inl, inr, arith,
}
use omnivore.Prelude.Tests.{ltb, if◌then◌else◌, Bool-cases, Option-cases}
use omnivore.Prelude.Count.{filter}
use omnivore.Text.Base.{Text, text_eq, text_eq_iff, is_empty}
use omnivore.Storage.Caches.{
  Session, seven_days, create_session, find_session, get_session, delete_session,
  prune_expired_sessions, CachedPermission, five_minutes, same_key, get_cached_permission,
  cache_permission, prune_permission_cache, CachedSource, floating_source_ttl, same_source,
  find_source, servable, get_cached_source, prune_source_cache, cache_source,
}

find_session-prune :
    (id : Text) (now : ℕ) (rows : List Session)
    → find_session id now (prune_expired_sessions now rows) ≡ find_session id now rows
unfolding find_session prune_expired_sessions
find_session-prune id now [] = refl
find_session-prune id now (s ∷ rows) = ground (arith, find_session-prune id now rows)

find_session-delete :
    (id other : Text) (now : ℕ) (rows : List Session)
    → find_session id now (delete_session other rows)
      ≡ (if text_eq id other then none else find_session id now rows)
unfolding find_session delete_session
find_session-delete id other now [] = ground arith
find_session-delete id other now (s ∷ rows) = ground (
  arith,
  text_eq_iff s.id id,
  text_eq_iff s.id other,
  text_eq_iff id other,
  find_session-delete id other now rows,
)

find_session-new :
    (s : Session) (later : ℕ) (rows : List Session)
    → find_session s.id later rows ≡ none
    → find_session s.id later (s ∷ rows) ≡ (if ltb later s.expires_at then some s else none)
unfolding find_session
find_session-new s later rows n = ground (arith, text_eq_iff s.id s.id, n)

-- A session that was created is found for seven days, with the token in the clear, provided that
-- what is encrypted decrypts; after that, and once it is deleted, it is not.
pub get_session-create :
    (encrypt : Text → Text) (decrypt : Text → Option Text) (id user token : Text)
    (avatar : Option Text) (now later : ℕ) (rows : List Session)
    → ((t : Text) → decrypt (encrypt t) ≡ some t)
    → find_session id later rows ≡ none
    → (let (session, rows') = create_session encrypt id user token avatar now rows in
        (get_session decrypt id later rows'
          ≡ (if ltb later (now + seven_days) then some session else none))
        × (get_session decrypt id later (prune_expired_sessions later rows')
            ≡ get_session decrypt id later rows')
        × (get_session decrypt id later (delete_session id rows') ≡ none))
unfolding create_session get_session
get_session-create encrypt decrypt id user token avatar now later rows k n =
    (let s = (create_session encrypt id user token avatar now rows).0 in
      let row = record s { github_token = encrypt token } in
      (
        rw (find_session-new row later rows n) (elim (Bool-cases (ltb later (now + seven_days))) [
          | inl p ↦ rw (p, k token) refl
          | inr p ↦ rw p refl
        ]),
        rw (find_session-prune id later (row ∷ rows)) refl,
        rw (find_session-delete id id later (row ∷ rows), (text_eq_iff id id).1 refl) refl,
      ))

find_permission-prune :
    (user repo : Text) (now : ℕ) (rows : List CachedPermission)
    → get_cached_permission user repo now (prune_permission_cache now rows)
      ≡ get_cached_permission user repo now rows
unfolding get_cached_permission prune_permission_cache
find_permission-prune user repo now [] = refl
find_permission-prune user repo now (p ∷ rows) =
    ground (arith, find_permission-prune user repo now rows)

permission-other :
    (user repo : Text) (now : ℕ) (rows : List CachedPermission)
    → get_cached_permission user repo now (filter (λ p. not (same_key user repo p)) rows) ≡ none
unfolding get_cached_permission
permission-other user repo now [] = refl
permission-other user repo now (p ∷ rows) = ground (arith, permission-other user repo now rows)

-- A permission that was cached is served for five minutes and not after, whatever was cached for the
-- user and the repository before, and pruning does not change what is served.
pub get_cached_permission-cache :
    (user repo permission : Text) (now later : ℕ) (rows : List CachedPermission)
    → (get_cached_permission user repo later (cache_permission user repo permission now rows)
        ≡ (if ltb later (now + five_minutes) then some permission else none))
      × (get_cached_permission user repo later (prune_permission_cache later rows)
          ≡ get_cached_permission user repo later rows)
unfolding cache_permission get_cached_permission same_key
get_cached_permission-cache user repo permission now later rows = (
  ground
      (arith, text_eq_iff user user, text_eq_iff repo repo, permission-other user repo later rows),
  find_permission-prune user repo later rows,
)

find_source-prune :
    (repo path commit_ref : Text) (now : ℕ) (rows : List CachedSource) (row : CachedSource)
    → find_source repo path commit_ref rows ≡ some row
    → (is_empty commit_ref && ltb (row.fetched_at + floating_source_ttl) now) ≡ false
    → find_source repo path commit_ref (prune_source_cache now rows) ≡ some row
unfolding find_source prune_source_cache same_source
find_source-prune repo path commit_ref now [] row h l = cc
find_source-prune repo path commit_ref now (r ∷ rows) row h l = ground (
  arith,
  text_eq_iff r.commit_ref commit_ref,
  find_source-prune repo path commit_ref now rows row,
)

servable-none :
    (commit_ref : Text) (now : ℕ) (o : Option CachedSource) (content : Text)
    → o ≡ none
    → servable commit_ref now o ≡ some content
    → ⊥
unfolding servable
servable-none commit_ref now none content n h = cc
servable-none commit_ref now (some r) content n h = cc

servable-live :
    (commit_ref : Text) (now : ℕ) (o : Option CachedSource) (row : CachedSource) (content : Text)
    → o ≡ some row
    → servable commit_ref now o ≡ some content
    → (is_empty commit_ref && ltb (row.fetched_at + floating_source_ttl) now) ≡ false
unfolding servable
servable-live commit_ref now none row content e h = cc
servable-live commit_ref now (some r) row content e h = ground (arith, e)

-- What is servable of the cached sources is servable when they have been pruned, with the same text.
pub get_cached_source-prune :
    (repo path commit_ref : Text) (now : ℕ) (rows : List CachedSource) (content : Text)
    → get_cached_source repo path commit_ref now rows ≡ some content
    → get_cached_source repo path commit_ref now (prune_source_cache now rows) ≡ some content
unfolding get_cached_source
get_cached_source-prune repo path commit_ref now rows content h =
    elim (Option-cases (find_source repo path commit_ref rows)) [
      | inl n ↦ absurd (servable-none commit_ref now _ content n h)
      | inr (row, f) ↦
          (let live = servable-live commit_ref now _ row content f h in
            rw (find_source-prune repo path commit_ref now rows row f live) (rw f at h))
    ]

-- A source that was cached is served for good where it is pinned to a commit, and for less than an
-- hour where it is not.
pub get_cached_source-cache :
    (repo path commit_ref content : Text) (now later : ℕ) (rows : List CachedSource)
    → get_cached_source repo path commit_ref later
        (cache_source repo path commit_ref content now rows)
      ≡ (if not (is_empty commit_ref)
          then some content
          else if ltb (later - now) floating_source_ttl
          then some content
          else none)
unfolding get_cached_source cache_source find_source same_source
get_cached_source-cache repo path commit_ref content now later rows =
    ground (arith, text_eq_iff repo repo, text_eq_iff path path, text_eq_iff commit_ref commit_ref)

stale_before :
    (commit_ref : Text) (now later : ℕ) (o : Option CachedSource) (row : CachedSource)
    (content : Text)
    → now ≤ later
    → o ≡ some row
    → servable commit_ref later o ≡ some content
    → (is_empty commit_ref && ltb (row.fetched_at + floating_source_ttl) now) ≡ false
unfolding servable
stale_before commit_ref now later none row content l e h = cc
stale_before commit_ref now later (some r) row content l e h = ground (arith, e)

-- What is servable of the cached sources at a time is servable then when they have been pruned before.
pub get_cached_source-prune_before :
    (repo path commit_ref : Text) (now later : ℕ) (rows : List CachedSource) (content : Text)
    → now ≤ later
    → get_cached_source repo path commit_ref later rows ≡ some content
    → get_cached_source repo path commit_ref later (prune_source_cache now rows) ≡ some content
unfolding get_cached_source
get_cached_source-prune_before repo path commit_ref now later rows content l h =
    elim (Option-cases (find_source repo path commit_ref rows)) [
      | inl n ↦ absurd (servable-none commit_ref later _ content n h)
      | inr (row, f) ↦
          (let live = stale_before commit_ref now later _ row content l f h in
            rw (find_source-prune repo path commit_ref now rows row f live) (rw f at h))
    ]
