-- ===== src/Parsers/Errors.antt =====
-- `ParseError` and `IngestMeta` of parsers/mod.rs. An error carries its kind and, where the message
-- names a line of the input, that line; the wording of messages is not modelled.
use mathlib.Core.Path.{subst}
use omnivore.Prelude.{◌≡◌, refl, ◌⊎◌, inl, inr, ℕ, Option, none, some}
use omnivore.Text.Base.{Text}
use omnivore.Model.Report.{OmnivoreReport}
use omnivore.Model.Snapshot.{CoverageSnapshot}

pub data Reason : Type 0 where
  -- lcov
  invalid_da bad_line_number bad_hit_count : ℕ → Reason
  no_source_files : Reason
  -- Go coverprofile
  implausible_range too_many_lines missing_mode no_coverage_data : Reason
  -- llvm-cov
  no_data_entries no_files_with_coverage : Reason
  -- coverage.py
  malformed_json no_files : Reason
  -- JaCoCo
  malformed_xml no_source_files_with_lines : Reason

pub data ParseError : Type 0 where
  json : ParseError
  lcov go_coverprofile llvm_cov python_coverage jacoco : Reason → ParseError
  unknown_format : ParseError

pub data Result {ℓ} (A : Type ℓ) : Type ℓ where
  err : ParseError → Result A
  ok : A → Result A

-- The `?` operator: an error returns at once, a value goes on.
module _ {ℓ κ} {A : Type ℓ} {B : Type κ} where
  infixl 5 ◌>>=◌
  abbrev pub ◌>>=◌ : Result A → (A → Result B) → Result B
  err e >>= rest = err e
  ok a >>= rest = rest a

infixl 5 ◌>>◌
abbrev pub ◌>>◌ {κ} : {B : Type κ} → Result (Unit {0}) → Result B → Result B
check >> rest = check >>= λ u. rest

pub record IngestMeta : Type 0 where
  pub project_id : Option Text
  pub project_name : Option Text
  pub commit_sha : Option Text
  pub branch : Option Text

-- a report with the snapshot that is stored for it
abbrev pub Parsed : Type 0 → Type 0
Parsed R = OmnivoreReport R × CoverageSnapshot R

-- `ok_or(e)`
abbrev pub ok_or {ℓ} : {A : Type ℓ} → Option A → ParseError → Result A
ok_or none e = err e
ok_or (some a) e = ok a

-- What an accepted value satisfies; a refusal satisfies everything.
module _ {ℓ} {A : Type ℓ} where
  abbrev pub Ensures : (A → Type 0) → Result A → Type 0
  Ensures P (ok a) = P a
  Ensures P (err e) = Unit

  pub Ensures-trivial : (m : Result A) → Ensures (λ a. Unit) m
  Ensures-trivial (ok a) = tt
  Ensures-trivial (err e) = tt

  pub Ensures-both :
      (P Q : A → Type 0) (m : Result A) → Ensures P m → Ensures Q m → Ensures (λ a. P a × Q a) m
  Ensures-both P Q (ok a) h k = (h, k)
  Ensures-both P Q (err e) h k = tt

  pub Ensures-ok : (P : A → Type 0) (m : Result A) (a : A) → Ensures P m → m ≡ ok a → P a
  Ensures-ok P (ok b) a h e = subst P (cc) h
  Ensures-ok P (err x) a h e = cc

module _ {ℓ} {A : Type ℓ} where
  pub Ensures-weaken :
      (P Q : A → Type 0) (m : Result A) → Ensures P m → ((a : A) → P a → Q a) → Ensures Q m
  Ensures-weaken P Q (ok a) h k = k a h
  Ensures-weaken P Q (err e) h k = tt

module _ {ℓ κ} {A : Type ℓ} {B : Type κ} where
  pub Ensures-bind :
      (P : A → Type 0) (Q : B → Type 0) (m : Result A) (f : A → Result B)
      → Ensures P m
      → ((a : A) → P a → Ensures Q (f a))
      → Ensures Q (m >>= f)
  Ensures-bind P Q (ok a) f h k = k a h
  Ensures-bind P Q (err e) f h k = tt

-- A chain fails in its first part or behind it.
module _ {ℓ κ} {A : Type ℓ} {B : Type κ} where
  pub >>=-err :
      (m : Result A) (f : A → Result B) (e : ParseError)
      → (m >>= f) ≡ err e
      → (m ≡ err e) ⊎ ((a : A) × (m ≡ ok a) × (f a ≡ err e))
  >>=-err (ok a) f e h = inr (a, refl, h)
  >>=-err (err x) f e h = inl (cc)
