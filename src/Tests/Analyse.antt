-- ===== src/Tests/Analyse.antt =====
-- The theorems on analysis.py at the log of a run.
use vdev_lab.Base.{
  true, ◌↔◌, suc, String, ◌==◌, ◌≡◌, ◌≤◌, refl, not, List, [], ◌∷◌, some, All, Linked, length,
  count, splitlines, is_blank, if◌then◌else◌, arith,
}
use vdev_lab.Base.Int.{pos}
use vdev_lab.Base.Value.{Value, int, str}
use vdev_lab.Base.Result.{Result, ok, err, json_decode_error, ◌>>=◌}
use vdev_lab.Analysis.{ApplicationLogEvent, RecoveryWindow, RecoveryMetrics}
use vdev_lab.Analysis.Log.{
  require_nonnegative_integer, require_object, require_event_name, parse_log_value, parse_lines,
  parse_application_log,
}
use vdev_lab.Analysis.Log.Sound.{Later, IsLogEvent, parse_application_log-Later}
use vdev_lab.Analysis.Evaluate.{maximum, evaluate_recovery_latency}
use vdev_lab.Analysis.Evaluate.Latency.{Within, evaluate_recovery_latency-All}
use vdev_lab.Analysis.Recovery.{
  observe_retry, close_window, observe_recovery, observe, observe_all, metrics_of,
  calculate_recovery_metrics,
}
use vdev_lab.Analysis.Recovery.Tally.{
  is_retry, is_recovery, retries_in, calculate_recovery_metrics-count,
}
use vdev_lab.Analysis.Recovery.Windows.{IsWindow, EndsBefore, calculate_recovery_metrics-IsWindow}
use vdev_lab.Tests.Samples.{dict_of}

abbrev retry_value : Value
retry_value = dict_of (
    ("timestamp_ms", int (pos 110))
    ∷ ("event", str "READ_RETRY")
    ∷ ("errno", int (pos 5))
    ∷ ("retry", int (pos 1))
    ∷ [])

abbrev success_value : Value
success_value = dict_of (
    ("timestamp_ms", int (pos 160))
    ∷ ("event", str "RECOVERY_SUCCESS")
    ∷ ("retries", int (pos 1))
    ∷ [])

-- A reader that knows two lines.
abbrev pub read_line : String → Result Value
read_line line =
    if line == "READ_RETRY"
    then ok retry_value
    else if line == "success"
    then ok success_value
    else err (json_decode_error "Expecting value")

abbrev pub log_text : String
log_text = "READ_RETRY\n\nsuccess\n"

abbrev pub log_events : List ApplicationLogEvent
log_events =
    record {
      line = 1;
      timestamp_ms = 110;
      event = "READ_RETRY";
      fields = ("errno", int (pos 5)) ∷ ("retry", int (pos 1)) ∷ [];
    }
    ∷ record {
      line = 3;
      timestamp_ms = 160;
      event = "RECOVERY_SUCCESS";
      fields = ("retries", int (pos 1)) ∷ [];
    }
    ∷ []

abbrev pub window : RecoveryWindow
window = record {
  first_error_timestamp_ms = 110;
  recovery_timestamp_ms = 160;
  recovery_latency_ms = pos 50;
  observed_retries = 1;
  reported_retries = 1;
}

abbrev pub metrics : RecoveryMetrics
metrics = record {
  observed_eio_count = 1;
  application_retry_count = 1;
  recoveries = window ∷ [];
  first_error_timestamp_ms = some 110;
  recovery_timestamp_ms = some 160;
  recovery_latency_ms = some (pos 50);
}

pub parse_application_log-sample : parse_application_log read_line log_text ≡ ok log_events
unfolding require_nonnegative_integer require_object require_event_name parse_log_value parse_lines
    parse_application_log splitlines is_blank ◌>>=◌
parse_application_log-sample = refl

parse_application_log-Later_example :
    Linked Later log_events
    × All (IsLogEvent 1 (suc (length (splitlines log_text)))) log_events
    × (length log_events ≡ count (λ line. not (is_blank line)) (splitlines log_text))
parse_application_log-Later_example =
    parse_application_log-Later read_line log_text parse_application_log-sample

pub calculate_recovery_metrics-sample : calculate_recovery_metrics log_events ≡ ok metrics
unfolding require_nonnegative_integer observe_retry close_window observe_recovery observe
    observe_all metrics_of calculate_recovery_metrics ◌>>=◌
calculate_recovery_metrics-sample = refl

calculate_recovery_metrics-count_example :
    (1 ≡ count is_retry log_events)
    × (length (window ∷ []) ≡ count is_recovery log_events)
    × (1 ≤ count is_retry log_events)
    × (retries_in (window ∷ []) ≤ count is_retry log_events)
calculate_recovery_metrics-count_example =
    calculate_recovery_metrics-count log_events calculate_recovery_metrics-sample

calculate_recovery_metrics-IsWindow_example :
    All IsWindow (window ∷ []) × Linked EndsBefore (window ∷ [])
calculate_recovery_metrics-IsWindow_example =
    calculate_recovery_metrics-IsWindow log_events (omega arith, (tt, tt))
      calculate_recovery_metrics-sample

evaluate_recovery_latency-sample :
    evaluate_recovery_latency metrics (int (pos 60))
    ≡ ok (record { maximum_ms = 60; observed_ms = some (pos 50); passed = true })
unfolding evaluate_recovery_latency maximum require_nonnegative_integer ◌>>=◌
evaluate_recovery_latency-sample = refl

evaluate_recovery_latency-All_example : (true ≡ true) ↔ ((1 ≤ 1) × All (Within 60) (pos 50 ∷ []))
evaluate_recovery_latency-All_example =
    evaluate_recovery_latency-All metrics 60 evaluate_recovery_latency-sample
