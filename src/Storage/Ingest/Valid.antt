-- ===== src/Storage/Ingest/Valid.antt =====
-- About `ingest_snapshot`: the keys of the tables.
use omnivore.Prelude.{
  ℕ, ◌≡◌, refl, ◌∙◌, false, not, ◌||◌, Option, none, some, List, [], ◌∷◌, ◌++◌, map, inl, inr,
  arith,
}
use omnivore.Prelude.Tests.{if◌then◌else◌, Bool-cases}
use omnivore.Prelude.Lists.{All, All-weaken}
use omnivore.Prelude.Count.{All-filter}
use omnivore.Text.Base.{Text, text_eq, text_eq_iff, any}
use omnivore.Float.{F64}
use omnivore.Model.Report.{add_i64}
use omnivore.Model.Snapshot.{CoverageSnapshot}
use omnivore.Storage.Records.{DbResult, done, failed, Project, Tables}
use omnivore.Storage.Keys.{scope_exists}
use omnivore.Storage.Tables.{
  has_project, has_snapshot, get_project, get_global_settings, create_project, insert_snapshot,
  update_where,
}
use omnivore.Storage.Ratchet.{
  RatchetPolicy, check_ratchet, ratchet_of, advance_ratchet_floor, raise_floors, allows,
}
use omnivore.Storage.Retention.{
  Series, Order, beyond, strip_files, strip_rows, delete_rows, prune_snapshots,
}
use omnivore.Storage.Retention.Bounds.{kept}
use omnivore.Storage.Retention.Others.{IdsDistinct, strip-IdsDistinct}
use omnivore.Storage.Valid.{
  HasParent, IsValid, filter-IdsDistinct, has_project-append, scope-append,
}
use omnivore.Storage.Ingest.{
  Config, new_project, ensure_found, ensure_project, finish, store, ensured, ingest_snapshot,
}

module _ {R : Type 0} where
  strip_files-project :
      (old : List (CoverageSnapshot R)) (r : CoverageSnapshot R)
      → (strip_files old r).project_id ≡ r.project_id
  unfolding strip_files
  strip_files-project old r = ground arith

  strip-HasParent :
      (ps : List (Project R)) (old rows : List (CoverageSnapshot R))
      → All (HasParent ps) rows
      → All (HasParent ps) (map (strip_files old) rows)
  strip-HasParent ps old [] h = tt
  strip-HasParent ps old (r ∷ rows) (p, h) =
      (rw (strip_files-project old r) p, strip-HasParent ps old rows h)

  has_snapshot-append :
      (id : Text) (s : CoverageSnapshot R) (rows : List (CoverageSnapshot R))
      → has_snapshot id rows ≡ false
      → text_eq s.id id ≡ false
      → has_snapshot id (rows ++ s ∷ []) ≡ false
  unfolding has_snapshot any
  has_snapshot-append id s [] h e = ground (arith, e)
  has_snapshot-append id s (r ∷ rows) h e = ground (arith, e, has_snapshot-append id s rows)

  append-IdsDistinct :
      (s : CoverageSnapshot R) (rows : List (CoverageSnapshot R))
      → has_snapshot s.id rows ≡ false
      → IdsDistinct rows
      → IdsDistinct (rows ++ s ∷ [])
  unfolding IdsDistinct has_snapshot any
  append-IdsDistinct s [] n h = (refl, tt)
  append-IdsDistinct s (r ∷ rows) n (f, d) = (
    has_snapshot-append r.id s rows f
        (ground (arith, text_eq_iff r.id s.id, text_eq_iff s.id r.id)),
    append-IdsDistinct s rows (ground arith) d,
  )

  append-HasParent :
      (ps : List (Project R)) (s : CoverageSnapshot R) (rows : List (CoverageSnapshot R))
      → HasParent ps s
      → All (HasParent ps) rows
      → All (HasParent ps) (rows ++ s ∷ [])
  append-HasParent ps s [] p h = (p, tt)
  append-HasParent ps s (r ∷ rows) p (q, h) = (q, append-HasParent ps s rows p h)

module _ {R : Type 0} ⦃f64 : F64 R⦄ where
  prune-IsValid :
      (order : Order R) (s : Series) (db : Tables R)
      → IsValid db
      → IsValid (prune_snapshots order s db)
  unfolding prune_snapshots delete_rows strip_rows
  prune-IsValid order s db v =
      (let settings = get_global_settings db in
        let old = beyond order settings.retention_full s db.snapshots in
        let rows = map (strip_files old) db.snapshots in
        let total = add_i64 settings.retention_full settings.retention_summary in
        record {
          distinct =
              filter-IdsDistinct (kept (beyond order total s rows)) rows
                (strip-IdsDistinct old db.snapshots v.distinct);
          parents =
              All-filter (λ r p e. p) rows (strip-HasParent db.projects old db.snapshots v.parents);
          scopes = v.scopes;
        })

  raise_floors-named :
      (line branch : R) (now : ℕ) (p : Project R) → (raise_floors line branch now p).id ≡ p.id
  unfolding raise_floors
  raise_floors-named line branch now p = ground arith

  has_project-advance :
      (x target : Text) (line branch : R) (now : ℕ) (ps : List (Project R))
      → has_project x
          (map (λ p. if text_eq p.id target then raise_floors line branch now p else p) ps)
        ≡ has_project x ps
  unfolding has_project any
  has_project-advance x target line branch now [] = refl
  has_project-advance x target line branch now (p ∷ ps) =
      ground (
        arith,
        raise_floors-named line branch now p,
        has_project-advance x target line branch now ps,
      )

  scope-advance :
      (o : Option Text) (target : Text) (line branch : R) (now : ℕ) (ps : List (Project R))
      → scope_exists o
          (map (λ p. if text_eq p.id target then raise_floors line branch now p else p) ps)
        ≡ scope_exists o ps
  unfolding scope_exists
  scope-advance none target line branch now ps = refl
  scope-advance (some x) target line branch now ps = has_project-advance x target line branch now ps

  advance-IsValid :
      (target : Text) (line branch : R) (now : ℕ) (db : Tables R)
      → IsValid db
      → IsValid (advance_ratchet_floor target line branch now db)
  unfolding advance_ratchet_floor update_where
  advance-IsValid target line branch now db v = record {
    distinct = v.distinct;
    parents =
        All-weaken (λ s h. has_project-advance s.project_id target line branch now db.projects ∙ h)
          db.snapshots v.parents;
    scopes =
        All-weaken (λ k h. scope-advance k.project_id target line branch now db.projects ∙ h)
          db.api_keys v.scopes;
  }

  ratchet_of-IsValid :
      (policy : RatchetPolicy) (snapshot : CoverageSnapshot R) (now : ℕ) (db : Tables R)
      (o : Option (Project R))
      → IsValid db
      → IsValid (ratchet_of policy snapshot now db o).1
  unfolding ratchet_of
  ratchet_of-IsValid policy snapshot now db none v = v
  ratchet_of-IsValid policy snapshot now db (some p) v = elim (Bool-cases p.ratchet_enabled) [
    | inl e ↦ elim (Bool-cases (allows policy snapshot.branch)) [
      | inl a ↦
          rw (e, a)
            (advance-IsValid snapshot.project_id snapshot.line_rate snapshot.branch_rate now db v)
      | inr a ↦ rw (e, a) v
    ]
    | inr e ↦ rw e v
  ]

  finish-IsValid :
      (order : Order R) (config : Config) (snapshot : CoverageSnapshot R) (now : ℕ) (db : Tables R)
      → IsValid db
      → IsValid (finish order config snapshot now db).1
  unfolding finish check_ratchet
  finish-IsValid order config snapshot now db v =
      prune-IsValid order _
        (ratchet_of config.ratchet snapshot now db (get_project snapshot.project_id db)).1
        (ratchet_of-IsValid config.ratchet snapshot now db (get_project snapshot.project_id db) v)

  store-IsValid :
      (order : Order R) (config : Config) (snapshot : CoverageSnapshot R) (now : ℕ) (db : Tables R)
      → IsValid db
      → IsValid (store order config snapshot now db (insert_snapshot snapshot db)).1
  unfolding store insert_snapshot
  store-IsValid order config snapshot now db v =
      elim (Bool-cases (
        has_snapshot snapshot.id db.snapshots
        || not (has_project snapshot.project_id db.projects))) [
          | inl p ↦ rw p v
          | inr p ↦ rw p (
              finish-IsValid order config snapshot now
                (record db { snapshots = db.snapshots ++ snapshot ∷ [] })
                (record {
                  distinct = append-IdsDistinct snapshot db.snapshots (ground arith) v.distinct;
                  parents =
                      append-HasParent db.projects snapshot db.snapshots (ground arith) v.parents;
                  scopes = v.scopes;
                }))
        ]

  -- the tables of a result are valid
  abbrev AllValid : DbResult (Tables R) → Type 0
  AllValid (failed e) = Unit
  AllValid (done db) = IsValid db

  ensured-IsValid :
      (order : Order R) (config : Config) (snapshot : CoverageSnapshot R) (now : ℕ) (db : Tables R)
      (r : DbResult (Tables R))
      → IsValid db
      → AllValid r
      → IsValid (ensured order config snapshot now db r).1
  unfolding ensured
  ensured-IsValid order config snapshot now db (failed e) v w = v
  ensured-IsValid order config snapshot now db (done db') v w =
      store-IsValid order config snapshot now db' w

  create-AllValid :
      (config : Config) (snapshot : CoverageSnapshot R) (name : Option Text) (now : ℕ)
      (db : Tables R) (o : Option (Project R))
      → IsValid db
      → AllValid (ensure_found config snapshot name now db o)
  unfolding ensure_found create_project
  create-AllValid config snapshot name now db (some p) v = v
  create-AllValid config snapshot name now db none v =
      elim (Bool-cases (not config.allow_project_autocreate)) [
        | inl a ↦ rw a tt
        | inr a ↦ elim (Bool-cases (has_project (new_project snapshot name).id db.projects)) [
          | inl b ↦ rw (a, b) tt
          | inr b ↦
              rw (a, b)
                (record {
                  distinct = v.distinct;
                  parents =
                      All-weaken (λ s h. has_project-append s.project_id db.projects _ h)
                        db.snapshots v.parents;
                  scopes =
                      All-weaken (λ k h. scope-append k.project_id db.projects _ h) db.api_keys
                        v.scopes;
                })
        ]
      ]

  -- Whatever ingest comes to, identifiers stay distinct and no reference to a project dangles.
  pub ingest_snapshot-IsValid :
      (order : Order R) (config : Config) (snapshot : CoverageSnapshot R) (name : Option Text)
      (now : ℕ) (db : Tables R)
      → IsValid db
      → IsValid (ingest_snapshot order config snapshot name now db).1
  unfolding ingest_snapshot ensure_project
  ingest_snapshot-IsValid order config snapshot name now db v =
      ensured-IsValid order config snapshot now db _ v
        (create-AllValid config snapshot name now db (get_project snapshot.project_id db) v)
