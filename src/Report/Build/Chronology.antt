-- ===== src/Report/Build/Chronology.antt =====
-- The `timeline` of the reports that report.py's `build_scenario_report` makes of an analysed log.
use mathlib.Core.List.{Perm}
use vdev_lab.Base.{◌≡◌, List, ◌++◌, All, Linked}
use vdev_lab.Base.Value.{Value, str, Mapping}
use vdev_lab.Base.Result.{Result, ok}
use vdev_lab.Base.Interpreter.{Interpreter}
use vdev_lab.Scenario.{ScenarioDefinition}
use vdev_lab.Scenario.Fields.{index}
use vdev_lab.Analysis.{ApplicationLogEvent}
use vdev_lab.Runner.{ScenarioRunResult}
use vdev_lab.Report.Timeline.{dispatch_timeline, application_timeline}
use vdev_lab.Report.Timeline.Sorted.{IntFloats, FromScenario, Before}

-- An item whose source is the application.
abbrev pub FromApplication : Mapping → Type 0
FromApplication item = index item "source" ≡ ok (str "application")

module _ (python : Interpreter) where
  module _ (floats : IntFloats python) where
    -- The entries are those of the dispatches and of the application's events, in order.
    abbrev pub IsTimeline :
        ScenarioDefinition → ScenarioRunResult → List ApplicationLogEvent → List Mapping → Type 0
    IsTimeline scenario result events timeline =
        (dispatches : List Mapping) × (dispatch_timeline python scenario.events result.dispatches
          ≡ ok dispatches)
        × All FromScenario dispatches
        × All FromApplication (application_timeline events)
        × Perm timeline (dispatches ++ application_timeline events)
        × Linked (Before python floats) timeline
