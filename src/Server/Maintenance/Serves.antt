-- ===== src/Server/Maintenance/Serves.antt =====
-- About the maintenance loop: it changes nothing that is served, and what has expired goes.
use omnivore.Prelude.{
  ℕ, ◌+◌, ◌<◌, ◌≤◌, ◌≡◌, refl, ◌∙◌, Bool, true, not, ◌&&◌, Option, some, List, [], ◌∷◌, inl, inr,
  arith,
}
use omnivore.Prelude.Tests.{leb, Bool-cases}
use omnivore.Prelude.Lists.{All}
use omnivore.Prelude.Count.{filter, All-filter}
use omnivore.Text.Base.{Text, any}
use omnivore.Storage.Caches.{
  Session, get_session, find_session, prune_expired_sessions, CachedPermission,
  get_cached_permission, prune_permission_cache, get_cached_source,
}
use omnivore.Storage.Caches.Expiry.{get_cached_source-prune_before}
use omnivore.Server.Maintenance.{
  Caches, Succeeds, sweep, rounds, spawn, first_delay, sweep_interval,
}

-- At a time the caches serve what others serve: the same sessions and permissions, and each source
-- that the others serve.
abbrev pub ServesAs : ℕ → Caches → Caches → Type 0
ServesAs later c d =
    ((decrypt : Text → Option Text) (id : Text)
      → get_session decrypt id later c.sessions ≡ get_session decrypt id later d.sessions)
    × ((user repo : Text)
        → get_cached_permission user repo later c.permissions
          ≡ get_cached_permission user repo later d.permissions)
    × ((repo path commit_ref content : Text)
        → get_cached_source repo path commit_ref later d.sources ≡ some content
        → get_cached_source repo path commit_ref later c.sources ≡ some content)

find_session-prune :
    (id : Text) (now later : ℕ) (rows : List Session)
    → now ≤ later
    → find_session id later (prune_expired_sessions now rows) ≡ find_session id later rows
unfolding find_session prune_expired_sessions
find_session-prune id now later [] l = refl
find_session-prune id now later (s ∷ rows) l =
    ground (arith, find_session-prune id now later rows l)

permission-prune :
    (user repo : Text) (now later : ℕ) (rows : List CachedPermission)
    → now ≤ later
    → get_cached_permission user repo later (prune_permission_cache now rows)
      ≡ get_cached_permission user repo later rows
unfolding get_cached_permission prune_permission_cache
permission-prune user repo now later [] l = refl
permission-prune user repo now later (p ∷ rows) l =
    ground (arith, permission-prune user repo now later rows l)

sweep-ServesAs :
    (ok : Succeeds) (now later : ℕ) (c : Caches) → now ≤ later → ServesAs later (sweep ok now c) c
unfolding sweep get_session
sweep-ServesAs ok now later c l = (
  λ decrypt id. elim (Bool-cases ok.sessions) [
    | inl e ↦ rw e (rw (find_session-prune id now later c.sessions l) refl)
    | inr e ↦ rw e refl
  ],
  λ user repo. elim (Bool-cases ok.permissions) [
    | inl e ↦ rw e (permission-prune user repo now later c.permissions l)
    | inr e ↦ rw e refl
  ],
  λ repo path commit_ref content h. elim (Bool-cases ok.sources) [
    | inl e ↦
        rw e (get_cached_source-prune_before repo path commit_ref now later c.sources content l h)
    | inr e ↦ rw e h
  ],
)

ServesAs-trans :
    (later : ℕ) (a b c : Caches) → ServesAs later a b → ServesAs later b c → ServesAs later a c
ServesAs-trans later a b c (p, q, r) (s, t, u) = (
  λ decrypt id. p decrypt id ∙ s decrypt id,
  λ user repo. q user repo ∙ t user repo,
  λ repo path commit_ref content h.
      r repo path commit_ref content (u repo path commit_ref content h),
)

rounds-time : (rs : List (Succeeds × ℕ)) (now : ℕ) (c : Caches) → now ≤ (rounds rs now c).0
unfolding rounds
rounds-time [] now c = omega arith
rounds-time ((ok, late) ∷ rs) now c =
    omega (arith, rounds-time rs (now + sweep_interval + late) (sweep ok now c))

rounds-ServesAs :
    (rs : List (Succeeds × ℕ)) (now later : ℕ) (c : Caches)
    → (rounds rs now c).0 ≤ later
    → ServesAs later (rounds rs now c).1 c
unfolding rounds
rounds-ServesAs [] now later c l = (λ decrypt id. refl, λ user repo. refl, λ a b d e h. h)
rounds-ServesAs ((ok, late) ∷ rs) now later c l =
    let next = now + sweep_interval + late in
    ServesAs-trans later (rounds rs next (sweep ok now c)).1 (sweep ok now c) c
      (rounds-ServesAs rs next later (sweep ok now c) l)
      (sweep-ServesAs ok now later c (omega (arith, l, rounds-time rs next (sweep ok now c))))

-- However many rounds the loop has made, however late, and whichever of its statements failed: from
-- then on the sessions and permissions that are served are those that would be served without it, and
-- every source that would be served is.
pub spawn-ServesAs :
    (rs : List (Succeeds × ℕ)) (start later : ℕ) (c : Caches)
    → (spawn rs start c).0 ≤ later
    → ServesAs later (spawn rs start c).1 c
unfolding spawn
spawn-ServesAs rs start later c l = rounds-ServesAs rs (start + first_delay) later c l

-- No session and no permission is left that had expired at a time.
abbrev pub IsSwept : ℕ → Caches → Type 0
IsSwept t c = All (λ s. t < s.expires_at) c.sessions × All (λ p. t < p.expires_at) c.permissions

abbrev pub both_succeed : Succeeds × ℕ → Bool
both_succeed (ok, late) = ok.sessions && ok.permissions

All-keep :
    {A : Type 0} (P : A → Type 0) (p : A → Bool) (xs : List A) → All P xs → All P (filter p xs)
All-keep P p xs h = All-filter (λ x q e. q) xs h

All-Unit : {A : Type 0} (xs : List A) → All (λ x. Unit {0}) xs
All-Unit [] = tt
All-Unit (x ∷ xs) = (tt, All-Unit xs)

kept_live :
    {A : Type 0} (t now : ℕ) (expires : A → ℕ) (xs : List A)
    → t ≤ now
    → All (λ x. t < expires x) (filter (λ x. not (leb (expires x) now)) xs)
kept_live t now expires xs l = All-filter (λ x q e. ground (arith, e, l)) xs (All-Unit xs)

sweep-keeps : (ok : Succeeds) (t now : ℕ) (c : Caches) → IsSwept t c → IsSwept t (sweep ok now c)
unfolding sweep prune_expired_sessions prune_permission_cache
sweep-keeps ok t now c (a, b) = (
  elim (Bool-cases ok.sessions) [ inl e ↦ rw e (All-keep _ _ c.sessions a) | inr e ↦ rw e a ],
  elim (Bool-cases ok.permissions) [ inl e ↦ rw e (All-keep _ _ c.permissions b) | inr e ↦ rw e b ],
)

sweep-IsSwept :
    (ok : Succeeds) (t now : ℕ) (c : Caches)
    → t ≤ now
    → ok.sessions ≡ true
    → ok.permissions ≡ true
    → IsSwept t (sweep ok now c)
unfolding sweep prune_expired_sessions prune_permission_cache
sweep-IsSwept ok t now c l p q = (
  rw p (kept_live t now (λ (s : Session). s.expires_at) c.sessions l),
  rw q (kept_live t now (λ (r : CachedPermission). r.expires_at) c.permissions l),
)

rounds-keeps :
    (rs : List (Succeeds × ℕ)) (t now : ℕ) (c : Caches)
    → IsSwept t c
    → IsSwept t (rounds rs now c).1
unfolding rounds
rounds-keeps [] t now c h = h
rounds-keeps ((ok, late) ∷ rs) t now c h =
    rounds-keeps rs t (now + sweep_interval + late) (sweep ok now c) (sweep-keeps ok t now c h)

rounds-IsSwept :
    (rs : List (Succeeds × ℕ)) (t now : ℕ) (c : Caches)
    → t ≤ now
    → any both_succeed rs ≡ true
    → IsSwept t (rounds rs now c).1
unfolding rounds any
rounds-IsSwept [] t now c l h = cc
rounds-IsSwept ((ok, late) ∷ rs) t now c l h = elim (Bool-cases (ok.sessions && ok.permissions)) [
  | inl e ↦
      rounds-keeps rs t (now + sweep_interval + late) (sweep ok now c)
        (sweep-IsSwept ok t now c l (ground (arith, e)) (ground (arith, e)))
  | inr e ↦
      rounds-IsSwept rs t (now + sweep_interval + late) (sweep ok now c) (omega arith)
        (ground (arith, h, e))
]

-- Once a round of the loop has both statements succeed, every session and every permission that had
-- expired when the first sweep began is gone.
pub spawn-IsSwept :
    (rs : List (Succeeds × ℕ)) (start : ℕ) (c : Caches)
    → any both_succeed rs ≡ true
    → IsSwept (start + first_delay) (spawn rs start c).1
unfolding spawn
spawn-IsSwept rs start c h =
    rounds-IsSwept rs (start + first_delay) (start + first_delay) c (omega arith) h
