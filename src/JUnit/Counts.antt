-- ===== src/JUnit/Counts.antt =====
-- The counters of the suite of junit.py against its elements.
use Prim.Native.Nat.{◌+◌}
use vdev_lab.Base.{
  ℕ, ◌≡◌, refl, String, ◌==◌, Option, none, some, List, [], ◌∷◌, decimal, decimal_onto, digit,
  if◌then◌else◌,
}
use vdev_lab.Report.{ReportStatus, pass, fail, error, timeout, ScenarioReport}
use vdev_lab.Base.Interpreter.{Interpreter}
use vdev_lab.Base.Value.{Value}
use vdev_lab.JUnit.{
  Element, element, Elements, nil, cons, failure_element, error_element, timeout_element,
  case_children, property_element, suite_element,
}

-- The elements of a tree with the name.
mutual
  pub count_elements : String → Element → ℕ
  count_elements name (element tag attributes text children) =
      (if tag == name then 1 else 0) + count_children name children

  pub count_children : String → Elements → ℕ
  count_children name nil = 0
  count_children name (cons e es) = count_elements name e + count_children name es

abbrev attribute_in : String → List (String × String) → Option String
attribute_in name [] = none
attribute_in name ((key, value) ∷ attributes) =
    let rest = attribute_in name attributes in if key == name then some value else rest

abbrev pub attribute : String → Element → Option String
attribute name (element tag attributes text children) = attribute_in name attributes

-- An attribute that shows how many elements have the name.
abbrev pub Counts : String → String → Element → Type 0
Counts name tag e = attribute name e ≡ some (decimal (count_elements tag e))

-- All four counters.
abbrev pub HasCounts : Element → Type 0
HasCounts suite =
    Counts "tests" "testcase" suite
    × Counts "failures" "failure" suite
    × Counts "errors" "error" suite
    × Counts "skipped" "skipped" suite

module _ (python : Interpreter) (json_text : Value → String) (report : ScenarioReport) where
  by_status :
      (s : ReportStatus) → report.status ≡ s → HasCounts (suite_element python json_text report)
  unfolding suite_element failure_element error_element timeout_element property_element
      case_children count_elements count_children decimal decimal_onto digit
  by_status pass e = rw e (refl, refl, refl, refl)
  by_status fail e = rw e (refl, refl, refl, refl)
  by_status error e = rw e (refl, refl, refl, refl)
  by_status timeout e = rw e (refl, refl, refl, refl)

  -- The attributes `tests`, `failures`, `errors` and `skipped` of the suite show how many elements
  -- `testcase`, `failure`, `error` and `skipped` it has, for every report.
  pub suite_element-HasCounts : HasCounts (suite_element python json_text report)
  suite_element-HasCounts = by_status report.status refl
