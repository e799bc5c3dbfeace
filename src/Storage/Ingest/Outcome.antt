-- ===== src/Storage/Ingest/Outcome.antt =====
-- About `ingest_snapshot`: its answer.
use omnivore.Prelude.{
  ℕ, ◌≡◌, refl, ◌⊎◌, ◌↔◌, Bool, true, false, Option, none, some, inl, inr, List, [], ◌∷◌, ◌++◌,
  arith,
}
use omnivore.Prelude.Tests.{if◌then◌else◌, Bool-cases, Option-cases}
use omnivore.Text.Base.{Text, text_eq_refl, any}
use omnivore.Float.{F64}
use omnivore.Model.Snapshot.{CoverageSnapshot}
use omnivore.Storage.Records.{DbResult, done, failed, protocol, constraint, Project, Tables}
use omnivore.Storage.Tables.{
  find_project, get_project, project_row, create_project, insert_snapshot, has_project,
  has_snapshot,
}
use omnivore.Storage.Ratchet.{RatchetResult, violates, check_ratchet, ratchet_of}
use omnivore.Storage.Retention.{Order}
use omnivore.Storage.Ingest.{
  Config, new_project, ensure_found, ensure_project, finish, store, ensured, ingest_snapshot,
}

module _ {R : Type 0} ⦃f64 : F64 R⦄ where
  -- Where projects are not created on the fly, a snapshot of an unknown project is refused, and
  -- nothing is changed.
  pub ingest_snapshot-closed :
      (order : Order R) (config : Config) (snapshot : CoverageSnapshot R) (name : Option Text)
      (now : ℕ) (db : Tables R)
      → config.allow_project_autocreate ≡ false
      → find_project snapshot.project_id db.projects ≡ none
      → ingest_snapshot order config snapshot name now db ≡ (failed protocol, db)
  unfolding ingest_snapshot ensure_project ensured get_project ensure_found
  ingest_snapshot-closed order config snapshot name now db c h = rw (h, c) refl

  find-has_project :
      (id : Text) (ps : List (Project R)) (p : Project R)
      → find_project id ps ≡ some p
      → has_project id ps ≡ true
  unfolding find_project has_project any
  find-has_project id [] p h = cc
  find-has_project id (q ∷ ps) p h = ground (arith, find-has_project id ps p)

  find-lacks_project :
      (id : Text) (ps : List (Project R)) → find_project id ps ≡ none → has_project id ps ≡ false
  unfolding find_project has_project any
  find-lacks_project id [] h = refl
  find-lacks_project id (q ∷ ps) h = ground (arith, find-lacks_project id ps)

  find_project-new :
      (id : Text) (ps : List (Project R)) (q : Project R)
      → q.id ≡ id
      → find_project id ps ≡ none
      → find_project id (ps ++ q ∷ []) ≡ some q
  unfolding find_project
  find_project-new id [] q e h = rw (e, text_eq_refl id) refl
  find_project-new id (p ∷ ps) q e h = ground (arith, find_project-new id ps q e)

  -- What the flag of a violated floor says of the ratchet, the floor and the rate.
  abbrev pub Reports : Bool → Bool → Option R → R → Type 0
  Reports flag enabled floor rate =
      (flag ≡ true)
      ↔ ((least : R) × (enabled ≡ true) × (floor ≡ some least) × (f64.lt rate least ≡ true))

  -- the floors that are held against a snapshot
  abbrev pub floor_of : Bool → Option R → Option R
  floor_of enabled floor = if enabled then floor else none

  -- An answer, by the project as it was before the snapshot: one that is new has no floors.
  abbrev pub Judged : CoverageSnapshot R → Option (Project R) → RatchetResult R → Type 0
  Judged snapshot none r =
      (r.line_floor_violated ≡ false)
      × (r.branch_floor_violated ≡ false)
      × (r.line_floor ≡ none)
      × (r.branch_floor ≡ none)
  Judged snapshot (some p) r =
      Reports r.line_floor_violated p.ratchet_enabled p.ratchet_line_floor snapshot.line_rate
      × Reports r.branch_floor_violated p.ratchet_enabled p.ratchet_branch_floor
          snapshot.branch_rate
      × (r.line_floor ≡ floor_of p.ratchet_enabled p.ratchet_line_floor)
      × (r.branch_floor ≡ floor_of p.ratchet_enabled p.ratchet_branch_floor)

  abbrev pub Answered : Config → CoverageSnapshot R → Tables R → DbResult (RatchetResult R) → Type 0
  Answered config snapshot db (failed e) =
      ((e ≡ constraint) × (has_snapshot snapshot.id db.snapshots ≡ true))
      ⊎ ((e ≡ protocol)
          × (config.allow_project_autocreate ≡ false)
          × (find_project snapshot.project_id db.projects ≡ none))
  Answered config snapshot db (done r) =
      (has_snapshot snapshot.id db.snapshots ≡ false)
      × ((config.allow_project_autocreate ≡ true)
          ⊎ ((p : Project R) × (find_project snapshot.project_id db.projects ≡ some p)))
      × Judged snapshot (find_project snapshot.project_id db.projects) r

  violates-Reports : (rate : R) (floor : Option R) → Reports (violates rate floor) true floor rate
  unfolding violates
  violates-Reports rate none = (λ h. cc, λ h. cc)
  violates-Reports rate (some floor) =
      (λ h. (floor, refl, refl, h), λ (least, _, e, h). ground (arith, e, h))

  ratchet_of-Judged :
      (config : Config) (snapshot : CoverageSnapshot R) (now : ℕ) (db : Tables R) (p : Project R)
      → Judged snapshot (some p) (ratchet_of config.ratchet snapshot now db (some p)).0
  unfolding ratchet_of
  ratchet_of-Judged config snapshot now db p = elim (Bool-cases p.ratchet_enabled) [
    | inl e ↦ rw e (
      violates-Reports snapshot.line_rate p.ratchet_line_floor,
      violates-Reports snapshot.branch_rate p.ratchet_branch_floor,
      refl,
      refl,
    )
    | inr e ↦ rw e ((λ h. cc, λ h. cc), (λ h. cc, λ h. cc), refl, refl)
  ]

  -- What is answered once the project is there.
  stored-Answered :
      (order : Order R) (config : Config) (snapshot : CoverageSnapshot R) (now : ℕ) (db : Tables R)
      (p : Project R)
      → find_project snapshot.project_id db.projects ≡ some p
      → has_snapshot snapshot.id db.snapshots ≡ false
      → (ensured order config snapshot now db (done db)).0
        ≡ done
            (ratchet_of config.ratchet snapshot now
              (record db { snapshots = db.snapshots ++ snapshot ∷ [] })
              (some p)).0
  unfolding ensured store insert_snapshot finish check_ratchet get_project
  stored-Answered order config snapshot now db p h n =
      rw (n, find-has_project snapshot.project_id db.projects p h, h) refl

  stored-taken :
      (order : Order R) (config : Config) (snapshot : CoverageSnapshot R) (now : ℕ) (db : Tables R)
      → has_snapshot snapshot.id db.snapshots ≡ true
      → (ensured order config snapshot now db (done db)).0 ≡ failed constraint
  unfolding ensured store insert_snapshot
  stored-taken order config snapshot now db h = rw h refl

  -- the tables with a project that an upload creates
  abbrev with_project : CoverageSnapshot R → Option Text → ℕ → Tables R → Tables R
  with_project snapshot name now db = record db {
    projects = db.projects ++ project_row (new_project snapshot name) now ∷ [];
  }

  ensure_project-creates :
      (config : Config) (snapshot : CoverageSnapshot R) (name : Option Text) (now : ℕ)
      (db : Tables R)
      → config.allow_project_autocreate ≡ true
      → find_project snapshot.project_id db.projects ≡ none
      → ensure_project config snapshot name now db ≡ done (with_project snapshot name now db)
  unfolding ensure_project get_project ensure_found create_project new_project
  ensure_project-creates config snapshot name now db c h =
      rw (h, c, find-lacks_project snapshot.project_id db.projects h) refl

  ensure_project-finds :
      (config : Config) (snapshot : CoverageSnapshot R) (name : Option Text) (now : ℕ)
      (db : Tables R) (p : Project R)
      → find_project snapshot.project_id db.projects ≡ some p
      → ensure_project config snapshot name now db ≡ done db
  unfolding ensure_project get_project ensure_found
  ensure_project-finds config snapshot name now db p h = rw h refl

  module _ (order : Order R) (config : Config) (snapshot : CoverageSnapshot R) (name : Option Text)
      (now : ℕ) (db : Tables R) where
    known-Answered :
        (p : Project R)
        → find_project snapshot.project_id db.projects ≡ some p
        → Answered config snapshot db (ingest_snapshot order config snapshot name now db).0
    unfolding ingest_snapshot
    known-Answered p h =
        rw (ensure_project-finds config snapshot name now db p h)
          (elim (Bool-cases (has_snapshot snapshot.id db.snapshots)) [
            | inl e ↦ rw (stored-taken order config snapshot now db e) (inl (refl, e))
            | inr e ↦
                rw (stored-Answered order config snapshot now db p h e)
                  (e, inr (p, h), rw h (ratchet_of-Judged config snapshot now _ p))
          ])

    created-Answered :
        config.allow_project_autocreate ≡ true
        → find_project snapshot.project_id db.projects ≡ none
        → Answered config snapshot db (ingest_snapshot order config snapshot name now db).0
    unfolding ingest_snapshot ratchet_of
    created-Answered c h =
        let db' = with_project snapshot name now db in
        let p = project_row (new_project snapshot name) now in
        let there = find_project-new snapshot.project_id db.projects p refl h in
        rw (ensure_project-creates config snapshot name now db c h)
          (elim (Bool-cases (has_snapshot snapshot.id db.snapshots)) [
            | inl e ↦ rw (stored-taken order config snapshot now db' e) (inl (refl, e))
            | inr e ↦
                rw (stored-Answered order config snapshot now db' p there e)
                  (e, inl c, rw h (refl, refl, refl, refl))
          ])

    -- An upload of a snapshot fails exactly where its identifier is taken or where its project is
    -- unknown and projects are not created on the fly. Else it is answered by the project as it was
    -- before: a floor counts as violated exactly where the ratchet is enabled, the project had such a
    -- floor and the rate of the snapshot is less than it, and the floors of an enabled ratchet are
    -- answered as they were, so that a snapshot is not held against a floor that it raises itself. A
    -- project that is created has no floors.
    pub ingest_snapshot-Answered :
        Answered config snapshot db (ingest_snapshot order config snapshot name now db).0
    ingest_snapshot-Answered = elim (Option-cases (find_project snapshot.project_id db.projects)) [
      | inr (p, h) ↦ known-Answered p h
      | inl h ↦ elim (Bool-cases config.allow_project_autocreate) [
        | inl c ↦ created-Answered c h
        | inr c ↦
            rw (ingest_snapshot-closed order config snapshot name now db c h) (inr (refl, c, h))
      ]
    ]
