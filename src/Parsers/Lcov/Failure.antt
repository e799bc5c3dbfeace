-- ===== src/Parsers/Lcov/Failure.antt =====
-- About the errors of parsers/lcov.rs.
use mathlib.Core.Path.{subst}
use omnivore.Prelude.{ℕ, suc, ◌+◌, ◌≡◌, refl, ◌⊎◌, inl, inr, some, List, [], ◌∷◌, arith}
use omnivore.Prelude.Lists.{get_elem?}
use omnivore.Text.Base.{Text, trim}
use omnivore.Text.Split.{splitn, lines}
use omnivore.Float.{F64}
use omnivore.Model.Report.{FileCoverage}
use omnivore.Model.Snapshot.{Outside}
use omnivore.Parsers.Errors.{ParseError, lcov, no_source_files, ok, err, >>=-err, IngestMeta}
use omnivore.Parsers.Lcov.{
  State, initial, Line, skipped, end_of_record, sf, da, brda, brf, brh, classify, act, loop,
  da_record, flush_file, require_files, parse,
}

-- Line `n`, counted from 1, is a `DA` record that cannot be read, and `e` says why and where.
abbrev pub IsBadRecord : ℕ → Text → ParseError → Type 0
IsBadRecord n raw e =
    (rest : Text) × (classify (trim raw) ≡ da rest) × (da_record n (splitn 3 b',' rest) ≡ err e)

module _ {R : Type 0} ⦃f64 : F64 R⦄ where
  act-err :
      (n : ℕ) (l : Line) (s : State R) (e : ParseError)
      → act n l s ≡ err e
      → (rest : Text) × (l ≡ da rest) × (da_record n (splitn 3 b',' rest) ≡ err e)
  unfolding act
  act-err n skipped s e h = cc
  act-err n end_of_record s e h = cc
  act-err n (sf path) s e h = cc
  act-err n (da rest) s e h = (
    rest,
    refl,
    elim (>>=-err (da_record n (splitn 3 b',' rest)) _ e h) [ inl x ↦ x | inr (l, p, q) ↦ cc q ],
  )
  act-err n (brda rest) s e h = cc
  act-err n (brf rest) s e h = cc
  act-err n (brh rest) s e h = cc

  -- The loop fails at a line of the input only, and only for a bad `DA` record.
  loop-err :
      (n : ℕ) (ls : List Text) (s : State R) (e : ParseError)
      → loop n ls s ≡ err e
      → (i : ℕ) × (raw : Text) × (get_elem? ls i ≡ some raw) × IsBadRecord (n + suc i) raw e
  unfolding loop
  loop-err n [] s e h = cc
  loop-err n (raw ∷ rest) s e h = elim (>>=-err (act (suc n) (classify (trim raw)) s) _ e h) [
    | inl x ↦
        (let (r, p, q) = act-err (suc n) (classify (trim raw)) s e x in
          (
            0,
            raw,
            refl,
            (r, p, subst (λ k. da_record k (splitn 3 b',' r) ≡ err e) (omega arith) q),
          ))
    | inr (s', p, q) ↦
        (let (i, r, at_i, bad) = loop-err (suc n) rest s' e q in
          (suc i, r, at_i, subst (λ k. IsBadRecord k r e) (omega arith) bad))
  ]

  require_files-err :
      (fs : List (FileCoverage R)) (e : ParseError)
      → require_files fs ≡ err e
      → (fs ≡ []) × (e ≡ lcov no_source_files)
  unfolding require_files
  require_files-err [] e h = (refl, cc)
  require_files-err (f ∷ fs) e h = cc

  -- An input is refused for two reasons only: one of its lines is a `DA` record that cannot be read,
  -- and the error then carries that line's number, counted from 1; or it was read to its end and
  -- named no source file.
  pub parse-err :
      (out : Outside R) (input : Text) (meta : IngestMeta) {e : ParseError}
      → parse out input meta ≡ err e
      → ((i : ℕ) × (raw : Text) × (get_elem? (lines input) i ≡ some raw)
          × IsBadRecord (suc i) raw e)
        ⊎ ((s : State R) × (loop 0 (lines input) initial ≡ ok s)
            × ((flush_file s).files ≡ [])
            × (e ≡ lcov no_source_files))
  unfolding parse
  parse-err out input meta {e} h = elim (>>=-err (loop 0 (lines input) initial) _ e h) [
    | inl x ↦
        (let (i, r, at_i, bad) = loop-err 0 (lines input) initial e x in
          inl (i, r, at_i, subst (λ k. IsBadRecord k r e) (omega arith) bad))
    | inr (s, p, q) ↦ elim (>>=-err (require_files (flush_file s).files) _ e q) [
      | inl x ↦ (let (n, c) = require_files-err (flush_file s).files e x in inr (s, p, n, c))
      | inr (t, a, b) ↦ cc b
    ]
  ]
