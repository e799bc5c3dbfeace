-- ===== src/Server/Series/Resolve.antt =====
-- About `resolve_series` of routes/coverage.rs.
use mathlib.Core.Path.{subst, ap₂}
use omnivore.Prelude.{◌≡◌, refl, sym, ◌∙◌, Bool, true, false, List, [], ◌∷◌, map, inl, inr, arith}
use omnivore.Prelude.Tests.{Bool-cases}
use omnivore.Prelude.Count.{filter, filter-keep, filter-skip}
use omnivore.Prelude.Lists.{All, All-weaken}
use omnivore.Prelude.Sort.{All-unsort}
use omnivore.Text.Base.{Text, text_eq, text_eq_iff, any}
use omnivore.Model.Snapshot.{CoverageSnapshot}
use omnivore.Storage.Records.{Tables}
use omnivore.Server.Answer.{answered}
use omnivore.Server.Series.{
  Pair, pair_eq, pair_le, distinct, pair_of, get_series_for_project, SeriesParams, selects, only,
  resolve_among, resolve_series,
}

pair_eq-eq : (p q : Pair) → pair_eq p q ≡ true → q ≡ p
unfolding pair_eq
pair_eq-eq (t, s) (t', s') h =
    ap₂ (λ a b. (a, b)) (sym ((text_eq_iff t t').0 (ground arith)))
      (sym ((text_eq_iff s s').0 (ground arith)))

distinct-seen :
    (p : Pair) (ps : List Pair)
    → any (pair_eq p) (distinct ps) ≡ true
    → distinct (p ∷ ps) ≡ distinct ps
unfolding distinct
distinct-seen p ps e = rw e refl

distinct-new :
    (p : Pair) (ps : List Pair)
    → any (pair_eq p) (distinct ps) ≡ false
    → distinct (p ∷ ps) ≡ p ∷ distinct ps
unfolding distinct
distinct-new p ps e = rw e refl

module _ (P : Pair → Type 0) where
  any-holds : (p : Pair) (ps : List Pair) → any (pair_eq p) ps ≡ true → All P ps → P p
  unfolding any
  any-holds p [] h a = cc
  any-holds p (q ∷ ps) h (b, a) = elim (Bool-cases (pair_eq p q)) [
    | inl e ↦ subst P (pair_eq-eq p q e) b
    | inr e ↦ any-holds p ps (ground (arith, e)) a
  ]

  All-distinct : (ps : List Pair) → All P (distinct ps) → All P ps
  All-distinct [] h = tt
  All-distinct (p ∷ ps) h = elim (Bool-cases (any (pair_eq p) (distinct ps))) [
    | inl e ↦
        (let k = subst (All P) (distinct-seen p ps e) h in
          (any-holds p (distinct ps) e k, All-distinct ps k))
    | inr e ↦ (let (a, k) = subst (All P) (distinct-new p ps e) h in (a, All-distinct ps k))
  ]

filter-none : (q : Pair → Bool) (ps : List Pair) → filter q ps ≡ [] → All (λ x. q x ≡ true → ⊥) ps
filter-none q [] h = tt
filter-none q (x ∷ ps) h = elim (Bool-cases (q x)) [
  | inl e ↦ absurd (ground (arith, e))
  | inr e ↦ ((λ t. cc), filter-none q ps (ground (arith, e)))
]

-- a filter that leaves one element
filter-one :
    (q : Pair → Bool) (p : Pair) (ps : List Pair)
    → filter q ps ≡ p ∷ []
    → (q p ≡ true) × All (λ x. q x ≡ true → x ≡ p) ps
filter-one q p [] h = cc
filter-one q p (x ∷ ps) h = elim (Bool-cases (q x)) [
  | inl e ↦
      (let k = sym (filter-keep q x ps e) ∙ h in
        let same : x ≡ p = cc k in
        let rest : filter q ps ≡ [] = cc k in
        (
          subst (λ y. q y ≡ true) same e,
          ((λ t. same), All-weaken (λ y n t. absurd (n t)) ps (filter-none q ps rest)),
        ))
  | inr e ↦ (let (a, b) = filter-one q p ps (sym (filter-skip q x ps e) ∙ h) in (a, ((λ t. cc), b)))
]

only-one : (ps : List Pair) (p : Pair) → only ps ≡ answered p → ps ≡ p ∷ []
unfolding only
only-one [] p h = cc
only-one (x ∷ []) p h = cc
only-one (x ∷ (y ∷ ps)) p h = cc

resolve_among-one :
    (params : SeriesParams) (ps : List Pair) (p : Pair)
    → resolve_among params ps ≡ answered p
    → filter (selects params) ps ≡ p ∷ []
unfolding resolve_among
resolve_among-one params [] p h = cc
resolve_among-one params (x ∷ ps) p h = only-one (filter (selects params) (x ∷ ps)) p h

module _ {R : Type 0} where
  All-rows :
      (P : Pair → Type 0) (project_id : Text) (rows : List (CoverageSnapshot R))
      → All P (map pair_of (filter (λ row. text_eq row.project_id project_id) rows))
      → All (λ row. text_eq row.project_id project_id ≡ true → P (pair_of row)) rows
  All-rows P project_id [] h = tt
  All-rows P project_id (row ∷ rows) h = elim (Bool-cases (text_eq row.project_id project_id)) [
    | inl e ↦
        (let (a, k) =
            subst (λ xs. All P (map pair_of xs))
              (filter-keep (λ row. text_eq row.project_id project_id) row rows e) h in
          ((λ t. a), All-rows P project_id rows k))
    | inr e ↦ (
      (λ t. cc),
      All-rows P project_id rows (
          subst (λ xs. All P (map pair_of xs))
            (filter-skip (λ row. text_eq row.project_id project_id) row rows e) h),
    )
  ]

  -- The series that is answered passes the request's selection, and no snapshot of the project that
  -- passes it belongs to another series.
  pub resolve_series-only :
      (params : SeriesParams) (project_id : Text) (db : Tables R) (p : Pair)
      → resolve_series params project_id db ≡ answered p
      → (selects params p ≡ true)
        × All
            (λ row.
              text_eq row.project_id project_id ≡ true
              → selects params (pair_of row) ≡ true
              → pair_of row ≡ p)
            db.snapshots
  unfolding resolve_series get_series_for_project
  resolve_series-only params project_id db p h =
      (let P : Pair → Type 0 = λ x. selects params x ≡ true → x ≡ p in
        let (s, a) = filter-one (selects params) p _ (resolve_among-one params _ p h) in
        (s, All-rows P project_id db.snapshots (All-distinct P _ (All-unsort pair_le P _ a))))
