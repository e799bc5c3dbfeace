-- ===== src/Parsers/OmnivoreJson.antt =====
-- crates/omnivore-core/src/parsers/omnivore_json.rs, with the deserializer of serde_json as an
-- argument.
use omnivore.Prelude.{Option, none}
use omnivore.Text.Base.{Text}
use omnivore.Float.{F64}
use omnivore.Model.Report.{OmnivoreReport}
use omnivore.Model.Snapshot.{Outside, from_report}
use omnivore.Parsers.Errors.{json, Result, ok, ◌>>=◌, ok_or, Parsed}

module _ {R : Type 0} ⦃f64 : F64 R⦄ where
  unfoldable pub parse : (Text → Option (OmnivoreReport R)) → Outside R → Text → Result (Parsed R)
  unfolding from_report
  parse decode out input = do report ← ok_or (decode input) json; ok (from_report out report none)
