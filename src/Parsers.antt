-- ===== src/Parsers.antt =====
-- crates/omnivore-core/src/parsers: the parsers of coverage reports.
pub mod Format
pub mod Errors
pub mod Lcov
mod Tests
pub mod GoCoverprofile
pub mod Sums
pub mod JacocoXml
pub mod PythonCoverage
pub mod LlvmCov
pub mod OmnivoreJson
