-- ===== src/Analysis/Recovery.antt =====
-- `calculate_recovery_metrics` of analysis.py: the variables of its loop, the body of the loop, and
-- the metrics that it returns.
pub mod Tally
pub mod Windows
use vdev_lab.Base.{ℕ, suc, ◌==◌, List, [], ◌∷◌, ◌++◌, Option, none, some, eqb, if◌then◌else◌}
use vdev_lab.Base.Int.{ℤ, sub_ℕ}
use vdev_lab.Base.Value.{get}
use vdev_lab.Base.Result.{Result, ok, err, application_log_error, ◌>>=◌}
use vdev_lab.Analysis.Records.{ApplicationLogEvent, RecoveryWindow, RecoveryMetrics}
use vdev_lab.Analysis.Log.{require_nonnegative_integer}

-- `errno.EIO` on Linux.
abbrev pub eio : ℕ
eio = 5

pub record Progress : Type 0 where
  pub observed_eio_count : ℕ
  pub application_retry_count : ℕ
  pub recoveries : List RecoveryWindow
  pub first_observed_error_timestamp_ms : Option ℕ
  pub first_error_timestamp_ms : Option ℕ
  pub active_retry_count : ℕ

abbrev pub initial_progress : Progress
initial_progress = record {
  observed_eio_count = 0;
  application_retry_count = 0;
  recoveries = [];
  first_observed_error_timestamp_ms = none;
  first_error_timestamp_ms = none;
  active_retry_count = 0;
}

-- `if x is None: x = value`
abbrev pub or_else : Option ℕ → ℕ → Option ℕ
or_else none value = some value
or_else (some x) value = some x

-- The branch of a `READ_RETRY`.
unfoldable pub observe_retry : Progress → ApplicationLogEvent → Result Progress
observe_retry p event = do
  retry_errno ← require_nonnegative_integer (get event.fields "errno") event.line "errno"
  retry ← require_nonnegative_integer (get event.fields "retry") event.line "retry"
  ok (record p {
    observed_eio_count =
        if eqb retry_errno eio then suc p.observed_eio_count else p.observed_eio_count;
    application_retry_count = suc p.application_retry_count;
    first_observed_error_timestamp_ms =
        or_else p.first_observed_error_timestamp_ms event.timestamp_ms;
    first_error_timestamp_ms = or_else p.first_error_timestamp_ms event.timestamp_ms;
    active_retry_count = suc p.active_retry_count;
  })

-- The end of the window that began at the first error.
unfoldable pub close_window : Option ℕ → Progress → ApplicationLogEvent → ℕ → Result Progress
close_window none p event reported_retries =
    err (application_log_error event.line "RECOVERY_SUCCESS has no preceding READ_RETRY")
close_window (some first_error) p event reported_retries = ok (record p {
  recoveries =
      p.recoveries
      ++ record {
        first_error_timestamp_ms = first_error;
        recovery_timestamp_ms = event.timestamp_ms;
        recovery_latency_ms = sub_ℕ event.timestamp_ms first_error;
        observed_retries = p.active_retry_count;
        reported_retries = reported_retries;
      }
        ∷ [];
  first_error_timestamp_ms = none;
  active_retry_count = 0;
})

-- The branch of a `RECOVERY_SUCCESS`.
unfoldable pub observe_recovery : Progress → ApplicationLogEvent → Result Progress
observe_recovery p event = do
  reported_retries ← require_nonnegative_integer (get event.fields "retries") event.line "retries"
  close_window p.first_error_timestamp_ms p event reported_retries

unfoldable pub observe : Progress → ApplicationLogEvent → Result Progress
observe p event =
    if event.event == "READ_RETRY"
    then observe_retry p event
    else if event.event == "RECOVERY_SUCCESS"
    then observe_recovery p event
    else ok p

unfoldable pub observe_all : Progress → List ApplicationLogEvent → Result Progress
observe_all p [] = ok p
observe_all p (event ∷ events) = do p' ← observe p event; observe_all p' events

abbrev first_recovery_time : List RecoveryWindow → Option ℕ
first_recovery_time [] = none
first_recovery_time (w ∷ ws) = some w.recovery_timestamp_ms

abbrev first_recovery_latency : List RecoveryWindow → Option ℤ
first_recovery_latency [] = none
first_recovery_latency (w ∷ ws) = some w.recovery_latency_ms

unfoldable pub metrics_of : Progress → RecoveryMetrics
metrics_of p = record {
  observed_eio_count = p.observed_eio_count;
  application_retry_count = p.application_retry_count;
  recoveries = p.recoveries;
  first_error_timestamp_ms = p.first_observed_error_timestamp_ms;
  recovery_timestamp_ms = first_recovery_time p.recoveries;
  recovery_latency_ms = first_recovery_latency p.recoveries;
}

unfoldable pub calculate_recovery_metrics : List ApplicationLogEvent → Result RecoveryMetrics
calculate_recovery_metrics events = do p ← observe_all initial_progress events; ok (metrics_of p)
