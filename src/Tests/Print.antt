-- ===== src/Tests/Print.antt =====
-- A scenario printed as a document and read back.
use vdev_lab.Base.{String, ◌==◌, eq_iff, ◌≡◌, ◌≢◌, refl, false, All, inl, arith}
use vdev_lab.Base.Result.{ok}
use vdev_lab.Scenario.Assertions.Shape.{IsValidAssertion}
use vdev_lab.Scenario.Document.{parse_document}
use vdev_lab.Scenario.Document.Print.{document_value}
use vdev_lab.Scenario.Document.Print.RoundTrip.{IsValidContents, parse_document-document_value}
use vdev_lab.Tests.Samples.{sample_contents, sample_scenario, sample_assertions}

not_empty : (s : String) → (s == "") ≡ false → s ≢ ""
not_empty s h e = ground (arith, eq_iff s "")

pub sample_assertions-IsValidAssertion : All (IsValidAssertion 5000) sample_assertions
sample_assertions-IsValidAssertion = (
  (refl, not_empty "RECOVERY_SUCCESS" refl, omega arith, omega arith, tt, (refl, omega arith)),
  ((not_empty "READ_RETRY" refl, tt, inl λ e. cc e), (tt, tt)),
)

sample_contents-IsValidContents : IsValidContents sample_contents
sample_contents-IsValidContents = record {
  device = refl;
  command = ((not_empty "./monitor" refl, (not_empty "-q" refl, tt)), omega arith);
  startup = omega arith;
  named = not_empty "retry" refl;
  timeout = omega arith;
  events = omega arith;
  ordered = omega arith;
  some_event = omega arith;
  assertions = sample_assertions-IsValidAssertion;
  some_assertion = omega arith;
}

parse_document-document_value_example :
    parse_document (document_value sample_contents) "retry.yaml" ≡ ok sample_scenario
parse_document-document_value_example =
    parse_document-document_value sample_contents "retry.yaml" sample_contents-IsValidContents
