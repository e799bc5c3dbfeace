-- ===== src/Model/Target.antt =====
-- `CoverageTarget` of model/coverage.rs and its two string forms.
use omnivore.Prelude.{ℕ, ◌≡◌, refl, Bool, Option, none, some, [], ◌∷◌, map}
use omnivore.Prelude.Tests.{◌==◌, if◌then◌else◌}
use omnivore.Text.Base.{Text, codes, text_eq, to_ascii_upper, trim, any}

pub data CoverageTarget : Type 0 where
  jvm_unit android_instrumented ios_unit kotlin_native composite : CoverageTarget
  rust_llvm_cov go_cover python_coverage lcov : CoverageTarget

unfoldable pub as_str : CoverageTarget → Text
as_str jvm_unit = codes "JVM_UNIT"
as_str android_instrumented = codes "ANDROID_INSTRUMENTED"
as_str ios_unit = codes "IOS_UNIT"
as_str kotlin_native = codes "KOTLIN_NATIVE"
as_str composite = codes "COMPOSITE"
as_str rust_llvm_cov = codes "RUST_LLVM_COV"
as_str go_cover = codes "GO_COVER"
as_str python_coverage = codes "PYTHON_COVERAGE"
as_str lcov = codes "LCOV"

dash_to_underscore : ℕ → ℕ
dash_to_underscore c = if c == b'-' then b'_' else c

-- `s.trim().to_ascii_uppercase().replace('-', "_")`
unfoldable pub normal_form : Text → Text
unfolding trim to_ascii_upper dash_to_underscore
normal_form s = map dash_to_underscore (map to_ascii_upper (trim s))

-- one of the alternatives of a `match` arm
one_of : Text → Text → Text → Bool
unfolding text_eq
one_of s a b = any (λ t. text_eq s t) (a ∷ b ∷ [])

unfoldable pub match_target : Text → Option CoverageTarget
unfolding one_of any text_eq
match_target s =
    if one_of s (codes "JVM_UNIT") (codes "JVMUNIT")
    then some jvm_unit
    else if one_of s (codes "ANDROID_INSTRUMENTED") (codes "ANDROIDINSTRUMENTED")
    then some android_instrumented
    else if one_of s (codes "IOS_UNIT") (codes "IOSUNIT")
    then some ios_unit
    else if one_of s (codes "KOTLIN_NATIVE") (codes "KOTLINNATIVE")
    then some kotlin_native
    else if text_eq s (codes "COMPOSITE")
    then some composite
    else if one_of s (codes "RUST_LLVM_COV") (codes "RUSTLLVMCOV")
    then some rust_llvm_cov
    else if one_of s (codes "GO_COVER") (codes "GOCOVER")
    then some go_cover
    else if one_of s (codes "PYTHON_COVERAGE") (codes "PYTHONCOVERAGE")
    then some python_coverage
    else if text_eq s (codes "LCOV")
    then some lcov
    else none

unfoldable pub from_str_loose : Text → Option CoverageTarget
unfolding normal_form match_target
from_str_loose s = match_target (normal_form s)

-- The string that is stored for a target is read back as that target.
pub from_str_loose-as_str : (t : CoverageTarget) → from_str_loose (as_str t) ≡ some t
unfolding from_str_loose as_str
from_str_loose-as_str jvm_unit = refl
from_str_loose-as_str _ = refl
