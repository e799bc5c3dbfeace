-- ===== src/Parsers/Format.antt =====
-- `CoverageFormat` of parsers/mod.rs: names, provenance and detection from the content.
use omnivore.Prelude.{ℕ, ◌-◌, Bool, false, ◌&&◌, ◌||◌, Option, none, some, List, [], ◌∷◌}
use omnivore.Prelude.Tests.{leb, if◌then◌else◌}
use omnivore.Text.Base.{Text, codes, text_eq, len_utf8, trim, starts_with, contains, any}
use omnivore.Model.Source

pub data CoverageFormat : Type 0 where
  omnivore_json lcov llvm_cov go_coverprofile python_coverage jacoco kover : CoverageFormat

one_of : Text → List Text → Bool
unfolding any text_eq
one_of s ts = any (λ t. text_eq s t) ts

-- the arms of the `match`, on the text in lower case
unfoldable pub match_format : Text → Option CoverageFormat
unfolding one_of
match_format s =
    if one_of s (codes "omnivore" ∷ [])
    then some omnivore_json
    else if one_of s (codes "lcov" ∷ [])
    then some lcov
    else if one_of s (codes "llvm-cov" ∷ codes "llvm_cov" ∷ codes "llvmcov" ∷ [])
    then some llvm_cov
    else if one_of s
        (codes "go" ∷ codes "go-coverprofile" ∷ codes "go_coverprofile" ∷ codes "coverprofile" ∷ [])
    then some go_coverprofile
    else if one_of s (
        codes "python"
        ∷ codes "python-coverage"
        ∷ codes "python_coverage"
        ∷ codes "coveragepy"
        ∷ codes "coverage.py"
        ∷ [])
    then some python_coverage
    else if one_of s (codes "kover" ∷ [])
    then some kover
    else if one_of s (codes "jacoco" ∷ codes "jacoco-xml" ∷ codes "jacoco_xml" ∷ [])
    then some jacoco
    else none

-- `to_lowercase`, whose table of Unicode is the argument; on ASCII it is `to_ascii_lower`.
unfoldable pub from_str_loose : (Text → Text) → Text → Option CoverageFormat
unfolding match_format
from_str_loose to_lowercase s = match_format (to_lowercase s)

unfoldable pub source : CoverageFormat → Text
source omnivore_json = Source.omnivore_agent
source lcov = Source.lcov
source llvm_cov = Source.llvm_cov
source go_coverprofile = Source.go
source python_coverage = Source.python_coverage
source jacoco = Source.jacoco
source kover = Source.kover

-- The longest prefix of whole characters within `room` bytes: the walk back to a char boundary.
unfoldable pub head_bytes : ℕ → Text → Text
unfolding len_utf8
head_bytes room [] = []
head_bytes room (c ∷ s) =
    let rest = head_bytes (room - len_utf8 c) s in if leb (len_utf8 c) room then c ∷ rest else []

unfoldable pub is_jacoco_xml : Text → Bool
unfolding head_bytes starts_with contains
is_jacoco_xml trimmed =
    if starts_with (codes "<") trimmed
    then (let head = head_bytes 512 trimmed in
        contains (codes "//JACOCO//DTD") head || contains (codes "<report") head)
    else false

unfoldable pub detect_json : Text → Option CoverageFormat
unfolding contains
detect_json trimmed =
    if contains (codes "\"format\"") trimmed && contains (codes "\"omnivore\"") trimmed
    then some omnivore_json
    else if contains (codes "\"type\"") trimmed && contains (codes "llvm.coverage") trimmed
    then some llvm_cov
    else if contains (codes "\"executed_lines\"") trimmed
        && contains (codes "\"num_statements\"") trimmed
    then some python_coverage
    else if contains (codes "\"coverage\"") trimmed && contains (codes "\"files\"") trimmed
    then some omnivore_json
    else none

unfoldable pub detect_trimmed : Text → Option CoverageFormat
unfolding detect_json is_jacoco_xml starts_with
detect_trimmed trimmed =
    if starts_with (codes "{") trimmed
    then detect_json trimmed
    else if starts_with (codes "TN:") trimmed || starts_with (codes "SF:") trimmed
    then some lcov
    else if starts_with (codes "mode:") trimmed
    then some go_coverprofile
    else if is_jacoco_xml trimmed
    then some jacoco
    else none

unfoldable pub detect : Text → Option CoverageFormat
unfolding detect_trimmed trim
detect content = detect_trimmed (trim content)
