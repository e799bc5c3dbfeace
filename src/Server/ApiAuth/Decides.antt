-- ===== src/Server/ApiAuth/Decides.antt =====
-- About routes/api_auth.rs: who may write, and where.
use omnivore.Prelude.{
  ℕ, ◌≡◌, ◌↔◌, ◌⊎◌, refl, sym, ap, ◌∙◌, suc, true, false, ◌||◌, Option, none, some, List, [], ◌∷◌,
  inl, inr, arith,
}
use omnivore.Prelude.Tests.{Bool-cases}
use omnivore.Prelude.Lists.{length, get_elem?}
use omnivore.Text.Base.{Text, text_eq, text_eq_iff}
use omnivore.Storage.Records.{ApiKey, Tables}
use omnivore.Storage.Keys.{any_api_keys_exist, find_key, validate_api_key}
use omnivore.Server.Answer.{forbidden, refused, answered}
use omnivore.Server.ApiAuth.{
  api_key_required, validated, with_header, authenticate_write, scope_of, allowed_in,
  enforce_project_scope,
}

find_key-head :
    (hash : Text) (j k : ApiKey) (ks : List ApiKey)
    → text_eq j.key_hash hash ≡ true
    → find_key hash (j ∷ ks) ≡ some k
    → j ≡ k
unfolding find_key
find_key-head hash j k ks e h = ground (arith, e)

find_key-tail :
    (hash : Text) (j k : ApiKey) (ks : List ApiKey)
    → text_eq j.key_hash hash ≡ false
    → find_key hash (j ∷ ks) ≡ some k
    → find_key hash ks ≡ some k
unfolding find_key
find_key-tail hash j k ks e h = ground (arith, e)

-- a key that is found stands in the table and has the hash
find_key-Found :
    (hash : Text) (ks : List ApiKey) (k : ApiKey)
    → find_key hash ks ≡ some k
    → (k.key_hash ≡ hash) × (i : ℕ) × (get_elem? ks i ≡ some k)
unfolding find_key
find_key-Found hash [] k h = cc
find_key-Found hash (j ∷ ks) k h = elim (Bool-cases (text_eq j.key_hash hash)) [
  | inl e ↦
      (let q = find_key-head hash j k ks e h in
        (ap (λ (x : ApiKey). x.key_hash) (sym q) ∙ (text_eq_iff j.key_hash hash).0 e, 0, ap some q))
  | inr e ↦
      (let (same, i, at_i) = find_key-Found hash ks k (find_key-tail hash j k ks e h) in
        (same, suc i, at_i))
]

length_zero : (ks : List ApiKey) → length ks ≡ 0 → ks ≡ []
length_zero [] h = refl
length_zero (k ∷ ks) h = absurd (omega (arith, h))

answered-none : (o : Option ApiKey) → answered none ≡ answered o → o ≡ none
answered-none o h = cc

-- the key of an answer
abbrev pub IsKey : (Text → Text) → Option Text → List ApiKey → Option ApiKey → Type 0
IsKey hash_key header keys o =
    (k : ApiKey) × (o ≡ some k)
    × (raw : Text) × (header ≡ some raw)
    × (k.key_hash ≡ hash_key raw)
    × (i : ℕ) × (get_elem? keys i ≡ some k)

module _ {R : Type 0} where
  validated-found :
      (found o : Option ApiKey) (db : Tables R)
      → (validated (found, db)).0 ≡ answered o
      → (k : ApiKey) × (o ≡ some k) × (found ≡ some k)
  unfolding validated
  validated-found none o db h = cc
  validated-found (some k) o db h = (k, ground arith, refl)

  with_header-IsKey :
      (hash_key : Text → Text) (header : Option Text) (now : ℕ) (db : Tables R) (o : Option ApiKey)
      → (with_header hash_key header now db).0 ≡ answered o
      → IsKey hash_key header db.api_keys o
  unfolding with_header validate_api_key
  with_header-IsKey hash_key none now db o h = cc
  with_header-IsKey hash_key (some raw) now db o h =
      let (k, e, f) = validated-found (find_key (hash_key raw) db.api_keys) o _ h in
      let (same, i, at_i) = find_key-Found (hash_key raw) db.api_keys k f in
      (k, e, raw, refl, same, i, at_i)

  no_keys : (db : Tables R) → any_api_keys_exist db ≡ false → db.api_keys ≡ []
  unfolding any_api_keys_exist
  no_keys db h = length_zero db.api_keys (ground arith)

  authenticate-open :
      (hash_key : Text → Text) (require_key header : Option Text) (now : ℕ) (db : Tables R)
      → (api_key_required require_key || any_api_keys_exist db) ≡ false
      → authenticate_write hash_key require_key header now db ≡ (answered none, db)
  unfolding authenticate_write
  authenticate-open hash_key require_key header now db e = rw e refl

  authenticate-required :
      (hash_key : Text → Text) (require_key header : Option Text) (now : ℕ) (db : Tables R)
      → (api_key_required require_key || any_api_keys_exist db) ≡ true
      → authenticate_write hash_key require_key header now db ≡ with_header hash_key header now db
  unfolding authenticate_write
  authenticate-required hash_key require_key header now db e = rw e refl

  -- nothing but the keys has changed
  abbrev pub SameRows : Tables R → Tables R → Type 0
  SameRows db db' = (db'.projects ≡ db.projects) × (db'.snapshots ≡ db.snapshots)

  validated-tables : (found : Option ApiKey) (db : Tables R) → (validated (found, db)).1 ≡ db
  unfolding validated
  validated-tables none db = refl
  validated-tables (some k) db = refl

  with_header-SameRows :
      (hash_key : Text → Text) (header : Option Text) (now : ℕ) (db : Tables R)
      → SameRows db (with_header hash_key header now db).1
  unfolding with_header validate_api_key
  with_header-SameRows hash_key none now db = (refl, refl)
  with_header-SameRows hash_key (some raw) now db =
      rw (validated-tables (find_key (hash_key raw) db.api_keys) _) (refl, refl)

  pub authenticate_write-SameRows :
      (hash_key : Text → Text) (require_key header : Option Text) (now : ℕ) (db : Tables R)
      → SameRows db (authenticate_write hash_key require_key header now db).1
  authenticate_write-SameRows hash_key require_key header now db =
      elim (Bool-cases (api_key_required require_key || any_api_keys_exist db)) [
        | inl e ↦
            rw (authenticate-required hash_key require_key header now db e)
              (with_header-SameRows hash_key header now db)
        | inr e ↦ rw (authenticate-open hash_key require_key header now db e) (refl, refl)
      ]

  -- A write is accepted in two cases only: keys are not required and there is none; or the header
  -- holds a text whose hash is that of a key in the table, and the answer is that key.
  pub authenticate_write-answered :
      (hash_key : Text → Text) (require_key header : Option Text) (now : ℕ) (db : Tables R)
      (o : Option ApiKey)
      → (authenticate_write hash_key require_key header now db).0 ≡ answered o
      → ((o ≡ none) × (api_key_required require_key ≡ false) × (db.api_keys ≡ []))
        ⊎ IsKey hash_key header db.api_keys o
  authenticate_write-answered hash_key require_key header now db o h =
      elim (Bool-cases (api_key_required require_key || any_api_keys_exist db)) [
        | inl e ↦ inr (
            with_header-IsKey hash_key header now db o (
              ap (λ r. r.0) (sym (authenticate-required hash_key require_key header now db e)) ∙ h))
        | inr e ↦ inl (
          answered-none o
              (ap (λ r. r.0) (sym (authenticate-open hash_key require_key header now db e)) ∙ h),
          ground arith,
          no_keys db (ground arith),
        )
      ]

allowed_in_iff :
    (o : Option Text) (project_id : Text)
    → ((allowed_in o project_id ≡ answered tt) ↔ ((o ≡ none) ⊎ (o ≡ some project_id)))
      × ((allowed_in o project_id ≡ answered tt) ⊎ (allowed_in o project_id ≡ refused forbidden))
unfolding allowed_in
allowed_in_iff none project_id = (((λ h. inl refl), (λ h. refl)), inl refl)
allowed_in_iff (some s) project_id = elim (Bool-cases (text_eq s project_id)) [
  | inl e ↦ rw e (((λ h. inr (ap some ((text_eq_iff s project_id).0 e))), (λ h. refl)), inl refl)
  | inr e ↦ rw e (
    (
      (λ h. cc),
      (λ h. elim h [ inl n ↦ cc | inr q ↦ absurd (ground (arith, text_eq_iff s project_id)) ]),
    ),
    inr refl,
  )
]

-- A key may write to a project exactly when it is not scoped, or scoped to that project; every other
-- attempt is forbidden.
pub enforce_project_scope_iff :
    (key : Option ApiKey) (project_id : Text)
    → ((enforce_project_scope key project_id ≡ answered tt)
        ↔ ((scope_of key ≡ none) ⊎ (scope_of key ≡ some project_id)))
      × ((enforce_project_scope key project_id ≡ answered tt)
          ⊎ (enforce_project_scope key project_id ≡ refused forbidden))
unfolding enforce_project_scope
enforce_project_scope_iff key project_id = allowed_in_iff (scope_of key) project_id
