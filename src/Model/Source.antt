-- ===== src/Model/Source.antt =====
-- The module `source` of model/coverage.rs: the names of the tools that measured.
use omnivore.Text.Base.{Text, codes}

abbrev pub omnivore_agent : Text
omnivore_agent = codes "omnivore-agent"

abbrev pub kover : Text
kover = codes "kover"

abbrev pub jacoco : Text
jacoco = codes "jacoco"

abbrev pub llvm_cov : Text
llvm_cov = codes "llvm-cov"

abbrev pub lcov : Text
lcov = codes "lcov"

abbrev pub go : Text
go = codes "go"

abbrev pub python_coverage : Text
python_coverage = codes "python-coverage"
