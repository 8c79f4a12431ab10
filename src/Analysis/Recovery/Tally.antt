-- ===== src/Analysis/Recovery/Tally.antt =====
-- The counts of the recovery metrics.
use vdev_lab.Base.{
  ℕ, ◌+◌, ◌≤◌, String, ◌==◌, ◌≡◌, Bool, List, [], ◌∷◌, ◌++◌, length, length-append, count, arith,
  Bool-cases, inl, inr, true, false, eq_iff, if◌then◌else◌, Option, none, some,
}
use vdev_lab.Base.Result.{
  ok, Ensures, Ensures-ok, Ensures-err, Ensures-bind, >>=-eq-ok, ok-injective,
}
use vdev_lab.Analysis.Records.{ApplicationLogEvent, RecoveryWindow, RecoveryMetrics}
use vdev_lab.Analysis.Recovery.{
  Progress, initial_progress, observe_retry, close_window, observe_recovery, observe, observe_all,
  metrics_of, calculate_recovery_metrics,
}

abbrev pub is_retry : ApplicationLogEvent → Bool
is_retry e = e.event == "READ_RETRY"

abbrev pub is_recovery : ApplicationLogEvent → Bool
is_recovery e = e.event == "RECOVERY_SUCCESS"

-- The retries of all windows.
pub retries_in : List RecoveryWindow → ℕ
retries_in [] = 0
retries_in (w ∷ ws) = w.observed_retries + retries_in ws

retries_in-append :
    (ws : List RecoveryWindow) (w : RecoveryWindow)
    → retries_in (ws ++ w ∷ []) ≡ retries_in ws + w.observed_retries
unfolding retries_in
retries_in-append [] w = omega arith
retries_in-append (v ∷ ws) w = omega (arith, retries_in-append ws w)

-- What some events add to the counts.
record Tally (p : Progress) (retries recoveries : ℕ) (q : Progress) : Type 0 where
  retried : q.application_retry_count ≡ p.application_retry_count + retries
  recovered : length q.recoveries ≡ length p.recoveries + recoveries
  eio_first : p.observed_eio_count ≤ q.observed_eio_count
  eio_last : q.observed_eio_count ≤ p.observed_eio_count + retries
  balance :
      retries_in q.recoveries + q.active_retry_count
      ≡ retries_in p.recoveries + p.active_retry_count + retries

observe_retry-Tally :
    (p : Progress) (e : ApplicationLogEvent) → Ensures (Tally p 1 0) (observe_retry p e)
unfolding observe_retry
observe_retry-Tally p e = Ensures-bind _ _ λ n _. Ensures-bind _ _ λ _ _. Ensures-ok _ (record {
  retried = omega arith;
  recovered = omega arith;
  eio_first = ground arith;
  eio_last = ground arith;
  balance = omega arith;
})

close_window-Tally :
    (first : Option ℕ) (p : Progress) (e : ApplicationLogEvent) (n : ℕ)
    → Ensures (Tally p 0 1) (close_window first p e n)
unfolding close_window
close_window-Tally none p e n = Ensures-err _
close_window-Tally (some t) p e n = Ensures-ok _ (record {
  retried = omega arith;
  recovered = omega (arith, length-append p.recoveries);
  eio_first = omega arith;
  eio_last = omega arith;
  balance = rw retries_in-append (omega arith);
})

observe_recovery-Tally :
    (p : Progress) (e : ApplicationLogEvent) → Ensures (Tally p 0 1) (observe_recovery p e)
unfolding observe_recovery
observe_recovery-Tally p e =
    Ensures-bind _ _ λ n _. close_window-Tally p.first_error_timestamp_ms p e n

Tally-trans :
    {p q r : Progress} {a b c d : ℕ} → Tally p a b q → Tally q c d r → Tally p (a + c) (b + d) r
Tally-trans s t = omega arith

abbrev one_if : Bool → ℕ
one_if b = if b then 1 else 0

not_both : (s : String) → (s == "READ_RETRY") ≡ true → (s == "RECOVERY_SUCCESS") ≡ false
not_both s h = rw ((eq_iff s "READ_RETRY").0 h)

observe-Tally :
    (p : Progress) (e : ApplicationLogEvent)
    → Ensures (Tally p (one_if (is_retry e)) (one_if (is_recovery e))) (observe p e)
unfolding observe
observe-Tally p e = elim (Bool-cases (is_retry e)) [
  | inl retry ↦ rw (retry, not_both e.event retry) (observe_retry-Tally p e)
  | inr other ↦ elim (Bool-cases (is_recovery e)) [
    | inl recovery ↦ rw (other, recovery) (observe_recovery-Tally p e)
    | inr neither ↦ rw (other, neither) (Ensures-ok p (omega arith))
  ]
]

count-cons :
    (f : ApplicationLogEvent → Bool) (e : ApplicationLogEvent) (es : List ApplicationLogEvent)
    → one_if (f e) + count f es ≡ count f (e ∷ es)
count-cons f e es = ground arith

observe_all-Tally :
    (p : Progress) (es : List ApplicationLogEvent)
    → Ensures (Tally p (count is_retry es) (count is_recovery es)) (observe_all p es)
unfolding observe_all
observe_all-Tally p [] = Ensures-ok p (omega arith)
observe_all-Tally p (e ∷ es) = Ensures-bind _ _ λ q h. record {
  at = λ r h'.
      rw (← count-cons is_retry e es, ← count-cons is_recovery e es)
        (Tally-trans ((observe-Tally p e).at q h) ((observe_all-Tally q es).at r h'));
}

-- The metrics of a log count its `READ_RETRY` events as the retries and have one window for each
-- `RECOVERY_SUCCESS`; no more errors are `EIO` than there are retries, and no retry is counted in two
-- windows.
pub calculate_recovery_metrics-count :
    (es : List ApplicationLogEvent) {m : RecoveryMetrics}
    → calculate_recovery_metrics es ≡ ok m
    → (m.application_retry_count ≡ count is_retry es)
      × (length m.recoveries ≡ count is_recovery es)
      × (m.observed_eio_count ≤ count is_retry es)
      × (retries_in m.recoveries ≤ count is_retry es)
unfolding calculate_recovery_metrics metrics_of
calculate_recovery_metrics-count es h =
    let (p, e, e') = >>=-eq-ok _ _ h in
    let t = (observe_all-Tally initial_progress es).at p e in
    rw (← ok-injective e') (unfold retries_in in omega arith)
