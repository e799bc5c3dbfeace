-- ===== src/Storage/Valid.antt =====
-- The keys of the tables as an invariant, and `delete_project`.
use omnivore.Prelude.{
  ◌≡◌, refl, Bool, true, false, not, Option, none, some, List, [], ◌∷◌, ◌++◌, inl, inr, arith,
}
use omnivore.Prelude.Tests.{Bool-cases}
use omnivore.Prelude.Lists.{All}
use omnivore.Prelude.Count.{filter, All-filter}
use omnivore.Text.Base.{Text, text_eq, text_eq_iff, any}
use omnivore.Model.Snapshot.{CoverageSnapshot}
use omnivore.Storage.Records.{ApiKey, Project, Tables}
use omnivore.Storage.Keys.{scope_exists}
use omnivore.Storage.Tables.{is_text, has_project, delete_project}
use omnivore.Storage.Retention.Others.{IdsDistinct, has_snapshot-filter}

module _ {R : Type 0} where
  -- the project of a snapshot is there
  abbrev pub HasParent : List (Project R) → CoverageSnapshot R → Type 0
  HasParent ps s = has_project s.project_id ps ≡ true

  abbrev pub HasScope : List (Project R) → ApiKey → Type 0
  HasScope ps k = scope_exists k.project_id ps ≡ true

  pub record IsValid (db : Tables R) : Type 0 where
    pub distinct : IdsDistinct db.snapshots
    pub parents : All (HasParent db.projects) db.snapshots
    pub scopes : All (HasScope db.projects) db.api_keys

  pub filter-IdsDistinct :
      (p : CoverageSnapshot R → Bool) (rows : List (CoverageSnapshot R))
      → IdsDistinct rows
      → IdsDistinct (filter p rows)
  unfolding IdsDistinct
  filter-IdsDistinct p [] h = tt
  filter-IdsDistinct p (r ∷ rows) (f, d) = elim (Bool-cases (p r)) [
    | inl e ↦ rw e (has_snapshot-filter r.id p rows f, filter-IdsDistinct p rows d)
    | inr e ↦ rw e (filter-IdsDistinct p rows d)
  ]

  has_project-filter :
      (id x : Text) (ps : List (Project R))
      → has_project x ps ≡ true
      → text_eq x id ≡ false
      → has_project x (filter (λ p. not (text_eq p.id id)) ps) ≡ true
  unfolding has_project any
  has_project-filter id x [] h e = cc
  has_project-filter id x (p ∷ ps) h e =
      ground (
        arith,
        text_eq_iff p.id x,
        text_eq_iff p.id id,
        text_eq_iff x id,
        has_project-filter id x ps,
      )

  pub has_project-append :
      (x : Text) (ps : List (Project R)) (p : Project R)
      → has_project x ps ≡ true
      → has_project x (ps ++ p ∷ []) ≡ true
  unfolding has_project any
  has_project-append x [] p h = cc
  has_project-append x (q ∷ ps) p h = ground (arith, has_project-append x ps p)

  scope-filter :
      (id : Text) (o : Option Text) (ps : List (Project R))
      → scope_exists o ps ≡ true
      → is_text id o ≡ false
      → scope_exists o (filter (λ p. not (text_eq p.id id)) ps) ≡ true
  unfolding scope_exists is_text
  scope-filter id none ps h e = refl
  scope-filter id (some x) ps h e = has_project-filter id x ps h e

  pub scope-append :
      (o : Option Text) (ps : List (Project R)) (p : Project R)
      → scope_exists o ps ≡ true
      → scope_exists o (ps ++ p ∷ []) ≡ true
  unfolding scope_exists
  scope-append none ps p h = refl
  scope-append (some x) ps p h = has_project-append x ps p h

  has_project_gone :
      (id : Text) (ps : List (Project R))
      → has_project id (filter (λ p. not (text_eq p.id id)) ps) ≡ false
  unfolding has_project any
  has_project_gone id [] = refl
  has_project_gone id (p ∷ ps) = ground (arith, has_project_gone id ps)

  -- When a project is deleted, so are its snapshots and the keys that are scoped to it, and what is
  -- left refers to projects that are there.
  pub delete_project-IsValid :
      (id : Text) (db : Tables R)
      → IsValid db
      → IsValid (delete_project id db)
        × (has_project id (delete_project id db).projects ≡ false)
        × All (λ s. text_eq s.project_id id ≡ false) (delete_project id db).snapshots
        × All (λ k. is_text id k.project_id ≡ false) (delete_project id db).api_keys
  unfolding delete_project
  delete_project-IsValid id db v = (
    record {
      distinct = filter-IdsDistinct (λ s. not (text_eq s.project_id id)) db.snapshots v.distinct;
      parents =
          All-filter (λ s h e. has_project-filter id s.project_id db.projects h (ground arith))
            db.snapshots v.parents;
      scopes =
          All-filter (λ k h e. scope-filter id k.project_id db.projects h (ground arith))
            db.api_keys v.scopes;
    },
    has_project_gone id db.projects,
    All-filter (λ s h e. ground arith) db.snapshots v.parents,
    All-filter (λ k h e. ground arith) db.api_keys v.scopes,
  )
