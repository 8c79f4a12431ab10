-- ===== src/Analysis/Records.antt =====
-- The dataclasses of analysis.py. A timestamp is never negative: the log parser refuses others.
use vdev_lab.Base.{ℕ, String, Bool, List, Option}
use vdev_lab.Base.Int.{ℤ}
use vdev_lab.Base.Value.{Mapping}

pub record ApplicationLogEvent : Type 0 where
  pub line : ℕ
  pub timestamp_ms : ℕ
  pub event : String
  pub fields : Mapping

pub record RecoveryWindow : Type 0 where
  pub first_error_timestamp_ms : ℕ
  pub recovery_timestamp_ms : ℕ
  pub recovery_latency_ms : ℤ
  pub observed_retries : ℕ
  pub reported_retries : ℕ

pub record RecoveryMetrics : Type 0 where
  pub observed_eio_count : ℕ
  pub application_retry_count : ℕ
  pub recoveries : List RecoveryWindow
  pub first_error_timestamp_ms : Option ℕ
  pub recovery_timestamp_ms : Option ℕ
  pub recovery_latency_ms : Option ℤ

pub record RetryAssertion : Type 0 where
  pub expected : ℕ
  pub observed : ℕ
  pub passed : Bool

pub record RecoveryLatencyAssertion : Type 0 where
  pub maximum_ms : ℕ
  pub observed_ms : Option ℤ
  pub passed : Bool

pub record EventCountAssertion : Type 0 where
  pub event : String
  pub expected : ℕ
  pub observed : ℕ
  pub within_ms : Option ℕ
  pub passed : Bool

pub record StdoutAssertion : Type 0 where
  pub operator : String
  pub text : String
  pub passed : Bool

pub record DisconnectAssertion : Type 0 where
  pub expected : Bool
  pub observed : Bool
  pub passed : Bool

pub record KernelWarningAssertion : Type 0 where
  pub expected : ℕ
  pub observed : Option ℕ
  pub available : Bool
  pub passed : Bool
