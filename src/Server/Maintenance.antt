-- ===== src/Server/Maintenance.antt =====
-- crates/omnivore-server/src/maintenance.rs: the sweep and the loop that repeats it. An error of the
-- database is logged and swallowed, so each statement may leave its table as it is.
pub mod Serves
use omnivore.Prelude.{ℕ, ◌+◌, Bool, List, [], ◌∷◌}
use omnivore.Prelude.Tests.{if◌then◌else◌}
use omnivore.Storage.Caches.{
  Session, prune_expired_sessions, CachedPermission, prune_permission_cache, CachedSource,
  prune_source_cache,
}

pub record Caches : Type 0 where
  pub sessions : List Session
  pub permissions : List CachedPermission
  pub sources : List CachedSource

-- which of the three statements succeed
pub record Succeeds : Type 0 where
  pub sessions : Bool
  pub permissions : Bool
  pub sources : Bool

unfoldable pub sweep : Succeeds → ℕ → Caches → Caches
sweep ok now c = record {
  sessions = if ok.sessions then prune_expired_sessions now c.sessions else c.sessions;
  permissions = if ok.permissions then prune_permission_cache now c.permissions else c.permissions;
  sources = if ok.sources then prune_source_cache now c.sources else c.sources;
}

abbrev pub first_delay : ℕ
first_delay = 30

abbrev pub sweep_interval : ℕ
sweep_interval = 1_800

-- The rounds of the loop from a time on, if nothing else happens in between: a sweep, and a sleep
-- that takes at least the interval. `late` says by how much a round is longer.
unfoldable pub rounds : List (Succeeds × ℕ) → ℕ → Caches → ℕ × Caches
unfolding sweep
rounds [] now c = (now, c)
rounds ((ok, late) ∷ rs) now c = rounds rs (now + sweep_interval + late) (sweep ok now c)

-- The task sleeps first.
unfoldable pub spawn : List (Succeeds × ℕ) → ℕ → Caches → ℕ × Caches
unfolding rounds
spawn rs start c = rounds rs (start + first_delay) c
