-- ===== src/Analysis/Recovery/Windows.antt =====
-- The recovery windows of a log whose times never fall: each ends after it began, and none begins
-- before the one before it ended.
use vdev_lab.Base.{
  ℕ, suc, ◌-◌, ◌≤◌, ◌==◌, ◌≡◌, List, [], ◌∷◌, All, All-map, All-append, Follows, Linked,
  Linked-snoc, arith, Option, none, some,
}
use vdev_lab.Base.Int.{pos}
use vdev_lab.Base.Result.{
  ok, Ensures, Ensures-ok, Ensures-err, Ensures-if, Ensures-bind, >>=-eq-ok, ok-injective,
}
use vdev_lab.Analysis.Records.{ApplicationLogEvent, RecoveryWindow, RecoveryMetrics}
use vdev_lab.Analysis.Recovery.{
  Progress, initial_progress, or_else, observe_retry, close_window, observe_recovery, observe,
  observe_all, metrics_of, calculate_recovery_metrics,
}

-- A window ends no earlier than it began, its latency is the difference, and it has a retry.
pub record IsWindow (w : RecoveryWindow) : Type 0 where
  pub ordered : w.first_error_timestamp_ms ≤ w.recovery_timestamp_ms
  pub latency : w.recovery_latency_ms ≡ pos (w.recovery_timestamp_ms - w.first_error_timestamp_ms)
  pub retried : 1 ≤ w.observed_retries

abbrev pub EndsBefore : RecoveryWindow → RecoveryWindow → Type 0
EndsBefore v w = v.recovery_timestamp_ms ≤ w.first_error_timestamp_ms

abbrev EndsBy : ℕ → RecoveryWindow → Type 0
EndsBy t w = w.recovery_timestamp_ms ≤ t

-- The window that is open, if any: the closed ones ended before it began.
abbrev IsOpen : ℕ → List RecoveryWindow → Option ℕ → ℕ → Type 0
IsOpen now ws none retries = All (EndsBy now) ws
IsOpen now ws (some first) retries = All (EndsBy first) ws × (first ≤ now) × (1 ≤ retries)

record IsOrderly (now : ℕ) (p : Progress) : Type 0 where
  closed : All IsWindow p.recoveries
  disjoint : Linked EndsBefore p.recoveries
  current : IsOpen now p.recoveries p.first_error_timestamp_ms p.active_retry_count

EndsBy-le : (s t : ℕ) (ws : List RecoveryWindow) → s ≤ t → All (EndsBy s) ws → All (EndsBy t) ws
EndsBy-le s t ws h = All-map (EndsBy s) (EndsBy t) ws (λ w k. omega arith)

later :
    (s t : ℕ) (ws : List RecoveryWindow) (first : Option ℕ) (n : ℕ)
    → s ≤ t
    → IsOpen s ws first n
    → IsOpen t ws first n
later s t ws none n h k = EndsBy-le s t ws h k
later s t ws (some first) n h (a, b, c) = (a, omega arith, c)

-- A retry opens a window, or falls into the open one.
retry-IsOpen :
    (s t : ℕ) (ws : List RecoveryWindow) (first : Option ℕ) (n : ℕ)
    → s ≤ t
    → IsOpen s ws first n
    → IsOpen t ws (or_else first t) (suc n)
retry-IsOpen s t ws none n h k = (EndsBy-le s t ws h k, omega arith, omega arith)
retry-IsOpen s t ws (some first) n h (a, b, c) = (a, omega arith, omega arith)

module _ (now : ℕ) (p : Progress) (e : ApplicationLogEvent) (h : now ≤ e.timestamp_ms)
    (o : IsOrderly now p) where
  observe_retry-IsOrderly : Ensures (IsOrderly e.timestamp_ms) (observe_retry p e)
  unfolding observe_retry
  observe_retry-IsOrderly = Ensures-bind _ _ λ _ _. Ensures-bind _ _ λ _ _. Ensures-ok _ (record {
    closed = o.closed;
    disjoint = o.disjoint;
    current = retry-IsOpen now e.timestamp_ms p.recoveries p.first_error_timestamp_ms _ h o.current;
  })

  close_window-IsOrderly :
      (first : Option ℕ) (n : ℕ)
      → IsOpen now p.recoveries first p.active_retry_count
      → Ensures (IsOrderly e.timestamp_ms) (close_window first p e n)
  unfolding close_window
  close_window-IsOrderly none n k = Ensures-err _
  close_window-IsOrderly (some first) n (a, b, c) = Ensures-ok _ (record {
    closed =
        All-append IsWindow p.recoveries _ o.closed
          (record { ordered = omega arith; latency = ground arith; retried = c }, tt);
    disjoint = Linked-snoc EndsBefore p.recoveries _ o.disjoint a;
    current =
        All-append (EndsBy e.timestamp_ms) p.recoveries _
          (EndsBy-le first e.timestamp_ms p.recoveries (omega arith) a) (omega arith, tt);
  })

  observe_recovery-IsOrderly : Ensures (IsOrderly e.timestamp_ms) (observe_recovery p e)
  unfolding observe_recovery
  observe_recovery-IsOrderly =
      Ensures-bind _ _ λ n _. close_window-IsOrderly p.first_error_timestamp_ms n o.current

  observe-IsOrderly : Ensures (IsOrderly e.timestamp_ms) (observe p e)
  unfolding observe
  observe-IsOrderly =
      Ensures-if (e.event == "READ_RETRY") _ _ (λ _. observe_retry-IsOrderly)
        λ _.
          Ensures-if (e.event == "RECOVERY_SUCCESS") _ _ (λ _. observe_recovery-IsOrderly)
            λ _. Ensures-ok p (record {
              closed = o.closed;
              disjoint = o.disjoint;
              current =
                  later now e.timestamp_ms p.recoveries p.first_error_timestamp_ms _ h o.current;
            })

abbrev pub NotLater : ApplicationLogEvent → ApplicationLogEvent → Type 0
NotLater e f = e.timestamp_ms ≤ f.timestamp_ms

abbrev Ordered : Progress → Type 0
Ordered p = All IsWindow p.recoveries × Linked EndsBefore p.recoveries

abbrev StartsBy : ℕ → List ApplicationLogEvent → Type 0
StartsBy now [] = Unit
StartsBy now (e ∷ es) = now ≤ e.timestamp_ms

starts_by :
    (e : ApplicationLogEvent) (es : List ApplicationLogEvent)
    → Follows NotLater e es
    → StartsBy e.timestamp_ms es
starts_by e [] _ = tt
starts_by e (f ∷ es) h = h

observe_all-Ordered :
    (now : ℕ) (p : Progress) (es : List ApplicationLogEvent)
    → StartsBy now es
    → Linked NotLater es
    → IsOrderly now p
    → Ensures Ordered (observe_all p es)
unfolding observe_all
observe_all-Ordered now p [] _ _ o = Ensures-ok p (o.closed, o.disjoint)
observe_all-Ordered now p (e ∷ es) h (f, l) o = Ensures-bind _ _ λ q step.
    observe_all-Ordered e.timestamp_ms q es (starts_by e es f) l
      ((observe-IsOrderly now p e h o).at q step)

-- Where the times of the events never fall, every recovery window ends no earlier than it began, with
-- the difference as its latency and at least one retry, and begins no earlier than the end of the
-- window before it.
pub calculate_recovery_metrics-IsWindow :
    (es : List ApplicationLogEvent) {m : RecoveryMetrics}
    → Linked NotLater es
    → calculate_recovery_metrics es ≡ ok m
    → All IsWindow m.recoveries × Linked EndsBefore m.recoveries
unfolding calculate_recovery_metrics metrics_of
calculate_recovery_metrics-IsWindow es l h =
    let (p, e, e') = >>=-eq-ok _ _ h in
    let t =
      (observe_all-Ordered 0 initial_progress es (starts_at_zero es) l
          (record { closed = tt; disjoint = tt; current = tt })).at
        p e in
    rw (← ok-injective e') t
  where
    starts_at_zero : (es : List ApplicationLogEvent) → StartsBy 0 es
    starts_at_zero [] = tt
    starts_at_zero (e ∷ es) = omega arith
