-- ===== src/Storage/Ingest/Links.antt =====
-- About the statements of storage/db.rs that write projects: the repositories they are linked to.
use omnivore.Prelude.{
  ℕ, ◌≡◌, ◌⊎◌, true, not, ◌||◌, Option, none, some, List, [], ◌∷◌, ◌++◌, map, inl, inr,
}
use omnivore.Prelude.Tests.{if◌then◌else◌, Bool-cases}
use omnivore.Prelude.Lists.{All, All-append}
use omnivore.Text.Base.{Text, text_eq, is_empty, trim}
use omnivore.Float.{F64}
use omnivore.Validation.{is_valid_repo_slug}
use omnivore.Model.Snapshot.{CoverageSnapshot}
use omnivore.Storage.Records.{DbResult, done, failed, Project, Tables, CreateProject}
use omnivore.Storage.Tables.{
  get_project, has_project, has_snapshot, create_project, project_row, update_where,
  insert_snapshot, coalesce, update_project_settings,
}
use omnivore.Storage.Ratchet.{
  RatchetPolicy, raise_floors, advance_ratchet_floor, ratchet_of, check_ratchet, allows,
}
use omnivore.Storage.Retention.{Order, prune_snapshots}
use omnivore.Storage.Ingest.{
  Config, new_project, ensure_found, ensure_project, finish, store, ensured, ingest_snapshot,
}

-- no repository, a blank one, or a slug
abbrev pub IsLink : Option Text → Type 0
IsLink none = Unit
IsLink (some repo) = (is_empty (trim repo) ≡ true) ⊎ (is_valid_repo_slug repo ≡ true)

coalesce-IsLink : (a b : Option Text) → IsLink a → IsLink b → IsLink (coalesce a b)
unfolding coalesce
coalesce-IsLink none b h k = k
coalesce-IsLink (some a) b h k = h

module _ {R : Type 0} where
  abbrev pub HasLinks : List (Project R) → Type 0
  HasLinks ps = All (λ p. IsLink p.github_repo) ps

  pub update-HasLinks :
      (id : Text) (f : Project R → Project R) (ps : List (Project R))
      → ((p : Project R) → IsLink p.github_repo → IsLink (f p).github_repo)
      → HasLinks ps
      → HasLinks (map (λ p. if text_eq p.id id then f p else p) ps)
  update-HasLinks id f [] k h = tt
  update-HasLinks id f (p ∷ ps) k (a, h) = elim (Bool-cases (text_eq p.id id)) [
    | inl e ↦ rw e (k p a, update-HasLinks id f ps k h)
    | inr e ↦ rw e (a, update-HasLinks id f ps k h)
  ]

  -- where a statement succeeds, every link is good
  abbrev pub DoneLinks : DbResult (Tables R) → Type 0
  DoneLinks (failed e) = Unit
  DoneLinks (done db) = HasLinks db.projects

  pub create_project-HasLinks :
      (input : CreateProject R) (now : ℕ) (db : Tables R)
      → IsLink input.github_repo
      → HasLinks db.projects
      → DoneLinks (create_project input now db)
  unfolding create_project project_row
  create_project-HasLinks input now db l h = elim (Bool-cases (has_project input.id db.projects)) [
    | inl e ↦ rw e tt
    | inr e ↦ rw e (All-append _ db.projects (project_row input now ∷ []) h (l, tt))
  ]

  pub update_project_settings-HasLinks :
      (id : Text) (github_repo source_root : Option Text) (now : ℕ) (db : Tables R)
      → IsLink github_repo
      → HasLinks db.projects
      → HasLinks (update_project_settings id github_repo source_root now db).projects
  unfolding update_project_settings update_where
  update_project_settings-HasLinks id github_repo source_root now db l h =
      update-HasLinks id _ db.projects (λ p k. coalesce-IsLink github_repo p.github_repo l k) h

module _ {R : Type 0} ⦃f64 : F64 R⦄ where
  raised-HasLinks :
      (id : Text) (line branch : R) (now : ℕ) (db : Tables R)
      → HasLinks db.projects
      → HasLinks (advance_ratchet_floor id line branch now db).projects
  unfolding advance_ratchet_floor update_where raise_floors
  raised-HasLinks id line branch now db h =
      update-HasLinks id (raise_floors line branch now) db.projects
        (λ p k. elim (Bool-cases p.ratchet_enabled) [ inl e ↦ rw e k | inr e ↦ rw e k ]) h

  ratchet_of-HasLinks :
      (policy : RatchetPolicy) (snapshot : CoverageSnapshot R) (now : ℕ) (db : Tables R)
      (o : Option (Project R))
      → HasLinks db.projects
      → HasLinks (ratchet_of policy snapshot now db o).1.projects
  unfolding ratchet_of
  ratchet_of-HasLinks policy snapshot now db none h = h
  ratchet_of-HasLinks policy snapshot now db (some p) h = elim (Bool-cases p.ratchet_enabled) [
    | inl e ↦ elim (Bool-cases (allows policy snapshot.branch)) [
      | inl a ↦
          rw (e, a)
            (raised-HasLinks snapshot.project_id snapshot.line_rate snapshot.branch_rate now db h)
      | inr a ↦ rw (e, a) h
    ]
    | inr e ↦ rw e h
  ]

  store-HasLinks :
      (order : Order R) (config : Config) (snapshot : CoverageSnapshot R) (now : ℕ) (db : Tables R)
      → HasLinks db.projects
      → HasLinks (store order config snapshot now db (insert_snapshot snapshot db)).1.projects
  unfolding store insert_snapshot finish check_ratchet prune_snapshots
  store-HasLinks order config snapshot now db h =
      elim (Bool-cases (
        has_snapshot snapshot.id db.snapshots
        || not (has_project snapshot.project_id db.projects))) [
          | inl p ↦ rw p h
          | inr p ↦ rw p (
              ratchet_of-HasLinks config.ratchet snapshot now
                (record db { snapshots = db.snapshots ++ snapshot ∷ [] })
                (get_project snapshot.project_id db) h)
        ]

  ensured-HasLinks :
      (order : Order R) (config : Config) (snapshot : CoverageSnapshot R) (now : ℕ) (db : Tables R)
      (r : DbResult (Tables R))
      → HasLinks db.projects
      → DoneLinks r
      → HasLinks (ensured order config snapshot now db r).1.projects
  unfolding ensured
  ensured-HasLinks order config snapshot now db (failed e) h k = h
  ensured-HasLinks order config snapshot now db (done db') h k =
      store-HasLinks order config snapshot now db' k

  ensure_found-DoneLinks :
      (config : Config) (snapshot : CoverageSnapshot R) (name : Option Text) (now : ℕ)
      (db : Tables R) (o : Option (Project R))
      → HasLinks db.projects
      → DoneLinks (ensure_found config snapshot name now db o)
  unfolding ensure_found new_project
  ensure_found-DoneLinks config snapshot name now db (some q) h = h
  ensure_found-DoneLinks config snapshot name now db none h =
      elim (Bool-cases (not config.allow_project_autocreate)) [
        | inl a ↦ rw a tt
        | inr a ↦ rw a (create_project-HasLinks (new_project snapshot name) now db tt h)
      ]

  pub ingest_snapshot-HasLinks :
      (order : Order R) (config : Config) (snapshot : CoverageSnapshot R) (name : Option Text)
      (now : ℕ) (db : Tables R)
      → HasLinks db.projects
      → HasLinks (ingest_snapshot order config snapshot name now db).1.projects
  unfolding ingest_snapshot
  ingest_snapshot-HasLinks order config snapshot name now db h =
      ensured-HasLinks order config snapshot now db (ensure_project config snapshot name now db) h (
        unfold ensure_project in
        ensure_found-DoneLinks config snapshot name now db (get_project snapshot.project_id db) h)
