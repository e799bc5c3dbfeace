-- ===== src/Storage/Ingest/Floors.antt =====
-- About `ingest_snapshot`: the projects and their ratchet floors.
use omnivore.Prelude.{
  ℕ, ◌≡◌, refl, ap, true, false, not, ◌||◌, Option, none, some, List, [], ◌∷◌, ◌++◌, map, inl, inr,
  arith,
}
use omnivore.Prelude.Tests.{if◌then◌else◌, Bool-cases}
use omnivore.Text.Base.{Text, text_eq}
use omnivore.Float.{F64}
use omnivore.Model.Snapshot.{CoverageSnapshot}
use omnivore.Storage.Records.{DbResult, done, failed, Project, Tables}
use omnivore.Storage.Tables.{
  find_project, get_project, has_project, has_snapshot, project_row, create_project, update_where,
  insert_snapshot,
}
use omnivore.Storage.Ratchet.{
  RatchetPolicy, raised, raise_floors, advance_ratchet_floor, ratchet_of, check_ratchet, allows,
}
use omnivore.Storage.Retention.{Order, prune_snapshots}
use omnivore.Storage.Ingest.{
  Config, new_project, ensure_found, ensure_project, finish, store, ensured, ingest_snapshot,
}

module _ {R : Type 0} ⦃f64 : F64 R⦄ where
  -- a floor that is there stays, and the new one is not below it
  abbrev pub NotBelow : Option R → Option R → Type 0
  NotBelow none new = Unit
  NotBelow (some old) none = ⊥
  NotBelow (some old) (some new) = f64.lt new old ≡ false

  -- Whatever project was there is there, with floors that did not fall.
  abbrev pub KeepsFloors : List (Project R) → List (Project R) → Type 0
  KeepsFloors ps qs =
      (id : Text) (p : Project R)
      → find_project id ps ≡ some p
      → (q : Project R) × (find_project id qs ≡ some q)
        × NotBelow p.ratchet_line_floor q.ratchet_line_floor
        × NotBelow p.ratchet_branch_floor q.ratchet_branch_floor

module _ {R : Type 0} ⦃f64 : F64 R⦄ (irreflexive : (a : R) → f64.lt a a ≡ false)
    (asymmetric : (a b : R) → f64.lt a b ≡ true → f64.lt b a ≡ false) where
  NotBelow-refl : (o : Option R) → NotBelow o o
  NotBelow-refl none = tt
  NotBelow-refl (some a) = irreflexive a

  raised-NotBelow : (o : Option R) (rate : R) → NotBelow o (some (raised o rate))
  unfolding raised
  raised-NotBelow none rate = tt
  raised-NotBelow (some old) rate = elim (Bool-cases (f64.lt old rate)) [
    | inl p ↦ rw p (asymmetric old rate p)
    | inr p ↦ rw p (irreflexive old)
  ]

  raise_floors-NotBelow :
      (line branch : R) (now : ℕ) (p : Project R)
      → NotBelow p.ratchet_line_floor (raise_floors line branch now p).ratchet_line_floor
        × NotBelow p.ratchet_branch_floor (raise_floors line branch now p).ratchet_branch_floor
  unfolding raise_floors
  raise_floors-NotBelow line branch now p = elim (Bool-cases p.ratchet_enabled) [
    | inl e ↦
        rw e
          (raised-NotBelow p.ratchet_line_floor line, raised-NotBelow p.ratchet_branch_floor branch)
    | inr e ↦ rw e (NotBelow-refl p.ratchet_line_floor, NotBelow-refl p.ratchet_branch_floor)
  ]

  KeepsFloors-refl : (ps : List (Project R)) → KeepsFloors ps ps
  KeepsFloors-refl ps id p h =
      (p, h, NotBelow-refl p.ratchet_line_floor, NotBelow-refl p.ratchet_branch_floor)

  find_project-append :
      (id : Text) (ps : List (Project R)) (q p : Project R)
      → find_project id ps ≡ some p
      → find_project id (ps ++ q ∷ []) ≡ some p
  unfolding find_project
  find_project-append id [] q p h = cc
  find_project-append id (r ∷ ps) q p h = ground (arith, find_project-append id ps q p)

  raise_floors-id :
      (line branch : R) (now : ℕ) (p : Project R) → (raise_floors line branch now p).id ≡ p.id
  unfolding raise_floors
  raise_floors-id line branch now p = ground arith

  -- the row that an update leaves
  abbrev updated : Text → R → R → ℕ → Project R → Project R
  updated target line branch now p =
      if text_eq p.id target then raise_floors line branch now p else p

  updated-id :
      (target : Text) (line branch : R) (now : ℕ) (p : Project R)
      → (updated target line branch now p).id ≡ p.id
  updated-id target line branch now p = ground (arith, raise_floors-id line branch now p)

  find_project-head :
      (id : Text) (r p : Project R) (ps : List (Project R))
      → text_eq r.id id ≡ true
      → find_project id (r ∷ ps) ≡ some p
      → r ≡ p
  unfolding find_project
  find_project-head id r p ps e h = ground (arith, e)

  find_project-updated :
      (target : Text) (line branch : R) (now : ℕ) (ps : List (Project R)) (id : Text)
      (p : Project R)
      → find_project id ps ≡ some p
      → find_project id (map (updated target line branch now) ps)
        ≡ some (updated target line branch now p)
  unfolding find_project
  find_project-updated target line branch now [] id p h = cc
  find_project-updated target line branch now (r ∷ ps) id p h =
      elim (Bool-cases (text_eq r.id id)) [
        | inl e ↦
            rw (updated-id target line branch now r, e)
              (ap (λ q. some (updated target line branch now q)) (find_project-head id r p ps e h))
        | inr e ↦
            rw (updated-id target line branch now r, e)
              (find_project-updated target line branch now ps id p (ground (arith, e)))
      ]

  updated-NotBelow :
      (target : Text) (line branch : R) (now : ℕ) (p : Project R)
      → NotBelow p.ratchet_line_floor (updated target line branch now p).ratchet_line_floor
        × NotBelow p.ratchet_branch_floor (updated target line branch now p).ratchet_branch_floor
  updated-NotBelow target line branch now p = elim (Bool-cases (text_eq p.id target)) [
    | inl e ↦ rw e (raise_floors-NotBelow line branch now p)
    | inr e ↦ rw e (NotBelow-refl p.ratchet_line_floor, NotBelow-refl p.ratchet_branch_floor)
  ]

  advance-KeepsFloors :
      (target : Text) (line branch : R) (now : ℕ) (db : Tables R)
      → KeepsFloors db.projects (advance_ratchet_floor target line branch now db).projects
  unfolding advance_ratchet_floor update_where
  advance-KeepsFloors target line branch now db id p h =
      let (line_kept, branch_kept) = updated-NotBelow target line branch now p in
      (
        updated target line branch now p,
        find_project-updated target line branch now db.projects id p h,
        line_kept,
        branch_kept,
      )

  ratchet_of-KeepsFloors :
      (policy : RatchetPolicy) (snapshot : CoverageSnapshot R) (now : ℕ) (db : Tables R)
      (o : Option (Project R))
      → KeepsFloors db.projects (ratchet_of policy snapshot now db o).1.projects
  unfolding ratchet_of
  ratchet_of-KeepsFloors policy snapshot now db none = KeepsFloors-refl db.projects
  ratchet_of-KeepsFloors policy snapshot now db (some p) = elim (Bool-cases p.ratchet_enabled) [
    | inl e ↦ elim (Bool-cases (allows policy snapshot.branch)) [
      | inl a ↦
          rw (e, a)
            (advance-KeepsFloors snapshot.project_id snapshot.line_rate snapshot.branch_rate now db)
      | inr a ↦ rw (e, a) (KeepsFloors-refl db.projects)
    ]
    | inr e ↦ rw e (KeepsFloors-refl db.projects)
  ]

  finish-KeepsFloors :
      (order : Order R) (config : Config) (snapshot : CoverageSnapshot R) (now : ℕ) (db : Tables R)
      → KeepsFloors db.projects (finish order config snapshot now db).1.projects
  unfolding finish check_ratchet prune_snapshots
  finish-KeepsFloors order config snapshot now db =
      ratchet_of-KeepsFloors config.ratchet snapshot now db (get_project snapshot.project_id db)

  insert-projects :
      (order : Order R) (config : Config) (snapshot : CoverageSnapshot R) (now : ℕ) (db : Tables R)
      → KeepsFloors db.projects
          (store order config snapshot now db (insert_snapshot snapshot db)).1.projects
  unfolding store insert_snapshot
  insert-projects order config snapshot now db =
      elim (Bool-cases (
        has_snapshot snapshot.id db.snapshots
        || not (has_project snapshot.project_id db.projects))) [
          | inl p ↦ rw p (KeepsFloors-refl db.projects)
          | inr p ↦ rw p (
              finish-KeepsFloors order config snapshot now
                (record db { snapshots = db.snapshots ++ snapshot ∷ [] }))
        ]

  -- Every project that was found is found.
  abbrev Keeps : Tables R → DbResult (Tables R) → Type 0
  Keeps db (failed e) = Unit
  Keeps db (done db') =
      (id : Text) (p : Project R)
      → find_project id db.projects ≡ some p
      → find_project id db'.projects ≡ some p

  ensured-KeepsFloors :
      (order : Order R) (config : Config) (snapshot : CoverageSnapshot R) (now : ℕ) (db : Tables R)
      (r : DbResult (Tables R))
      → Keeps db r
      → KeepsFloors db.projects (ensured order config snapshot now db r).1.projects
  unfolding ensured
  ensured-KeepsFloors order config snapshot now db (failed e) k = KeepsFloors-refl db.projects
  ensured-KeepsFloors order config snapshot now db (done db') k =
      λ id p h. insert-projects order config snapshot now db' id p (k id p h)

  new_project-id :
      (snapshot : CoverageSnapshot R) (name : Option Text)
      → (new_project snapshot name).id ≡ snapshot.project_id
  unfolding new_project
  new_project-id snapshot name = refl

  ensure_found-Keeps :
      (config : Config) (snapshot : CoverageSnapshot R) (name : Option Text) (now : ℕ)
      (db : Tables R) (o : Option (Project R))
      → Keeps db (ensure_found config snapshot name now db o)
  unfolding ensure_found create_project
  ensure_found-Keeps config snapshot name now db (some q) = λ id p h. h
  ensure_found-Keeps config snapshot name now db none =
      elim (Bool-cases (not config.allow_project_autocreate)) [
        | inl a ↦ rw a tt
        | inr a ↦ elim (Bool-cases (has_project snapshot.project_id db.projects)) [
          | inl b ↦ rw (a, new_project-id snapshot name, b) tt
          | inr b ↦
              rw (a, new_project-id snapshot name, b)
                (λ id p h.
                  find_project-append id db.projects (project_row (new_project snapshot name) now) p
                    h)
        ]
      ]

  -- Whatever ingest comes to, no project is lost and no floor of a project falls or is dropped, as
  -- long as the order of the rates is irreflexive and asymmetric.
  pub ingest_snapshot-KeepsFloors :
      (order : Order R) (config : Config) (snapshot : CoverageSnapshot R) (name : Option Text)
      (now : ℕ) (db : Tables R)
      → KeepsFloors db.projects (ingest_snapshot order config snapshot name now db).1.projects
  unfolding ingest_snapshot
  ingest_snapshot-KeepsFloors order config snapshot name now db =
      ensured-KeepsFloors order config snapshot now db (ensure_project config snapshot name now db)
        (unfold ensure_project in
          ensure_found-Keeps config snapshot name now db (get_project snapshot.project_id db))
