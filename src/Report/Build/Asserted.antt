-- ===== src/Report/Build/Asserted.antt =====
-- What an assertion of a scenario says of a run, in terms of the run alone, against the tests that
-- report.py and analysis.py compute.
use vdev_lab.Base.{
  ℕ, suc, ◌+◌, ◌≤◌, String, ◌==◌, ◌≡◌, ◌↔◌, ◌⊎◌, inl, inr, refl, sym, ◌∙◌, ap, subst, Bool, true,
  false, not, ◌&&◌, List, [], ◌∷◌, map, Option, none, some, all, All, count, length, is_in, eqb,
  Bool-cases, eq_iff, arith,
}
use vdev_lab.Base.Int.{ℤ, pos, negsuc}
use vdev_lab.Scenario.Assertions.Shape.{Assertion, event_count, stdout, disconnect, kernel_warnings}
use vdev_lab.Analysis.{ApplicationLogEvent, RecoveryMetrics, RecoveryWindow}
use vdev_lab.Analysis.Evaluate.{
  observed_count, maximum, at_most, disconnected, same, in_time, origin_of,
}
use vdev_lab.Analysis.Evaluate.Latency.{Within, at_most-All}
use vdev_lab.Runner.{ScenarioRunResult}
use vdev_lab.Report.Documents.{is_zero}
use vdev_lab.Report.Build.Holds.{
  assertion_holds, event_holds, latency_holds, contained_holds, absent_holds, run_holds,
}

-- `Counts P xs n`: exactly n items of the list have the property.
pub data Counts {A : Type 0} (P : A → Type 0) : List A → ℕ → Type 0 where
  nobody : Counts P [] 0
  counted : {x : A} {xs : List A} {n : ℕ} → P x → Counts P xs n → Counts P (x ∷ xs) (suc n)
  skipped : {x : A} {xs : List A} {n : ℕ} → (P x → ⊥) → Counts P xs n → Counts P (x ∷ xs) n

-- At most so many milliseconds after the first event of the list, where a limit is given.
abbrev pub Soon : Option ℕ → List ApplicationLogEvent → ApplicationLogEvent → Type 0
Soon none events item = Unit
Soon (some limit) [] item = ⊥
Soon (some limit) (first ∷ rest) item = item.timestamp_ms ≤ first.timestamp_ms + limit

abbrev pub Disconnected : List ApplicationLogEvent → Type 0
Disconnected [] = ⊥
Disconnected (item ∷ items) = (item.event ≡ "DEVICE_DISCONNECTED") ⊎ Disconnected items

-- There is a recovery window, and the latency of each is at most the bound, where one is given.
abbrev pub Recovered : Option ℕ → List RecoveryWindow → Type 0
Recovered none windows = Unit
Recovered (some bound) windows =
    (1 ≤ length windows) × All (Within bound) (map (λ w. w.recovery_latency_ms) windows)

abbrev pub Contained : Option String → String → Type 0
Contained none out = Unit
Contained (some s) out = is_in s out ≡ true

abbrev pub Absent : Option String → String → Type 0
Absent none out = Unit
Absent (some s) out = is_in s out ≡ false

-- What an assertion says of a run with the events and the recovery windows of its log.
abbrev pub Holds :
    ScenarioRunResult → List ApplicationLogEvent → RecoveryMetrics → Assertion → Type 0
Holds result events metrics (event_count event n within bound) =
    Counts (λ item. (item.event ≡ event) × Soon within events item) events n
    × Recovered bound metrics.recoveries
Holds result events metrics (stdout contained absent) =
    Contained contained result.application.stdout × Absent absent result.application.stdout
Holds result events metrics (disconnect expected) = (expected ≡ true) ↔ Disconnected events
Holds result events metrics (kernel_warnings n) =
    (result.kernel_log_available ≡ true) × (length result.kernel_warnings ≡ n)

module _ {A : Type 0} (P : A → Type 0) (p : A → Bool) (decides : (x : A) → (p x ≡ true) ↔ P x) where
  Counts-count : (xs : List A) → Counts P xs (count p xs)
  Counts-count [] = nobody
  Counts-count (x ∷ xs) = elim (Bool-cases (p x)) [
    | inl h ↦ rw h (counted ((decides x).0 h) (Counts-count xs))
    | inr h ↦
        rw h (skipped (λ q. let e : false ≡ true = sym h ∙ (decides x).1 q in cc) (Counts-count xs))
  ]

  count-Counts : {xs : List A} {n : ℕ} → Counts P xs n → count p xs ≡ n
  count-Counts nobody = refl
  count-Counts (counted {x} h c) =
      let e = (decides x).1 h in let k = count-Counts c in rw (e, k) refl
  count-Counts (skipped {x} h c) =
      let k = count-Counts c in
      elim (Bool-cases (p x)) [ inl e ↦ absurd (h ((decides x).0 e)) | inr e ↦ rw (e, k) refl ]

  count_iff : (xs : List A) (n : ℕ) → (count p xs ≡ n) ↔ Counts P xs n
  count_iff xs n = (λ e. subst (Counts P xs) e (Counts-count xs), count-Counts)

all_iff :
    {A : Type 0} (p : A → Bool) (P : A → Type 0)
    → ((x : A) → (p x ≡ true) ↔ P x)
    → (xs : List A) → (all p xs ≡ true) ↔ All P xs
all_iff p P decides [] = (λ _. tt, λ _. refl)
all_iff p P decides (x ∷ xs) =
    let (there, back) = all_iff p P decides xs in
    let (in', out) = decides x in
    (
      λ h. (in' (ground arith), there (ground arith)),
      λ (h, hs). let a = out h in let b = back hs in ground arith,
    )

module _ (events : List ApplicationLogEvent) where
  in_time-Soon :
      (within : Option ℕ) (item : ApplicationLogEvent)
      → (in_time within (origin_of events) item.timestamp_ms ≡ true) ↔ Soon within events item
  in_time-Soon none item = (λ _. tt, λ _. refl)
  in_time-Soon (some limit) item = split events
    where
      split :
          (es : List ApplicationLogEvent)
          → (in_time (some limit) (origin_of es) item.timestamp_ms ≡ true)
            ↔ Soon (some limit) es item
      split [] = (λ h. let e : false ≡ true = h in cc, λ h. absurd h)
      split (first ∷ rest) = ground arith

  is_counted_iff :
      (event : String) (within : Option ℕ) (item : ApplicationLogEvent)
      → ((item.event == event && in_time within (origin_of events) item.timestamp_ms) ≡ true)
        ↔ ((item.event ≡ event) × Soon within events item)
  is_counted_iff event within item =
      let (there, back) = in_time-Soon within item in
      let (same_name, named) = eq_iff item.event event in
      (
        λ h. (same_name (ground arith), there (ground arith)),
        λ (e, h). let a = named e in let b = back h in ground arith,
      )

disconnected_iff :
    (events : List ApplicationLogEvent) → (disconnected events ≡ true) ↔ Disconnected events
unfolding disconnected
disconnected_iff [] = (λ h. let e : false ≡ true = h in cc, λ h. absurd h)
disconnected_iff (item ∷ items) =
    let (there, back) = disconnected_iff items in
    let (same_name, named) = eq_iff item.event "DEVICE_DISCONNECTED" in
    (
      λ h. elim (Bool-cases (item.event == "DEVICE_DISCONNECTED")) [
        | inl e ↦ inl (same_name e)
        | inr e ↦ inr (there (rw e at h))
      ],
      λ c. elim c [
        | inl e ↦ rw (named e) refl
        | inr d ↦ elim (Bool-cases (item.event == "DEVICE_DISCONNECTED")) [
          | inl e ↦ rw e refl
          | inr e ↦ rw e (back d)
        ]
      ],
    )

at_most-Recovered :
    (bound : ℕ) (windows : List RecoveryWindow)
    → (at_most (maximum (map (λ w. w.recovery_latency_ms) windows)) bound ≡ true)
      ↔ Recovered (some bound) windows
unfolding maximum
at_most-Recovered bound [] = (λ h. let e : false ≡ true = h in cc, λ (h, _). absurd (omega arith))
at_most-Recovered bound (w ∷ ws) =
    let (there, back) =
      at_most-All bound w.recovery_latency_ms (map (λ v. v.recovery_latency_ms) ws) in
    (λ h. (omega arith, there h), λ (_, h). back h)

is_zero_iff : (n : ℤ) → (is_zero n ≡ true) ↔ (n ≡ pos 0)
is_zero_iff (pos n) = (λ h. let e : n ≡ 0 = ground arith in ap pos e, λ e. ap is_zero e)
is_zero_iff (negsuc n) = (λ h. let e : false ≡ true = h in cc, λ e. cc)

eqb_iff : (m n : ℕ) → (eqb m n ≡ true) ↔ (m ≡ n)
eqb_iff m n = (λ h. ground arith, λ h. ground arith)

same_iff : (b c : Bool) (D : Type 0) → (b ≡ true) ↔ D → (same b c ≡ true) ↔ ((c ≡ true) ↔ D)
same_iff true c D (there, back) = (λ h. (λ _. there refl, λ _. h), λ (_, out). out (there refl))
same_iff false c D (there, back) = split c
  where
    split : (b : Bool) → (not b ≡ true) ↔ ((b ≡ true) ↔ D)
    split true = (λ h. let e : false ≡ true = h in cc, λ (in', _). back (in' refl))
    split false = (λ _. (λ h. let e : false ≡ true = h in cc, λ d. back d), λ _. refl)

and_iff :
    (a b : Bool) (P Q : Type 0) → (a ≡ true) ↔ P → (b ≡ true) ↔ Q → ((a && b) ≡ true) ↔ (P × Q)
and_iff true b P Q (p, _) (q, r) = (λ h. (p refl, q h), λ (_, h). r h)
and_iff false b P Q (p, o) _ = (λ h. let e : false ≡ true = h in cc, λ (h, _). o h)

and_true_iff : (a : Bool) (P : Type 0) → (a ≡ true) ↔ P → ((a && true) ≡ true) ↔ P
and_true_iff true P p = p
and_true_iff false P p = p

contained_holds_iff :
    (s : Option String) (out : String) → (contained_holds out s ≡ true) ↔ Contained s out
contained_holds_iff none out = (λ _. tt, λ _. refl)
contained_holds_iff (some s) out = (λ h. h, λ h. h)

absent_holds_iff : (s : Option String) (out : String) → (absent_holds out s ≡ true) ↔ Absent s out
absent_holds_iff none out = (λ _. tt, λ _. refl)
absent_holds_iff (some s) out = (λ h. ground arith, λ h. ap not h)

module _ (result : ScenarioRunResult) (events : List ApplicationLogEvent)
    (metrics : RecoveryMetrics) where
  event_holds_iff :
      (event : String) (n : ℕ) (within bound : Option ℕ)
      → (event_holds events (event_count event n within bound) ≡ true)
        ↔ Counts (λ item. (item.event ≡ event) × Soon within events item) events n
  unfolding observed_count
  event_holds_iff event n within bound =
      let (a, b) = eqb_iff (observed_count events event within) n in
      let (c, d) = count_iff _ _ (is_counted_iff events event within) events n in
      (λ h. c (a h), λ h. b (d h))

  latency_holds_iff :
      (event : String) (n : ℕ) (within bound : Option ℕ)
      → (latency_holds metrics (event_count event n within bound) ≡ true)
        ↔ Recovered bound metrics.recoveries
  latency_holds_iff event n within none = (λ _. tt, λ _. refl)
  latency_holds_iff event n within (some bound) = at_most-Recovered bound metrics.recoveries

  -- The computed test of an assertion is true if and only if the assertion holds.
  pub assertion_holds_iff :
      (a : Assertion)
      → (assertion_holds result events metrics a ≡ true) ↔ Holds result events metrics a
  assertion_holds_iff (event_count event n within bound) =
      and_iff _ _ _ _ (event_holds_iff event n within bound)
        (latency_holds_iff event n within bound)
  assertion_holds_iff (stdout contained absent) = and_true_iff _ _ (
      and_iff _ _ _ _ (contained_holds_iff contained result.application.stdout)
        (absent_holds_iff absent result.application.stdout))
  assertion_holds_iff (disconnect expected) =
      and_true_iff _ _ (same_iff (disconnected events) expected _ (disconnected_iff events))
  assertion_holds_iff (kernel_warnings n) =
      and_true_iff _ _
        (and_iff _ _ _ _ (λ h. h, λ h. h) (eqb_iff (length result.kernel_warnings) n))

  -- Every assertion holds, and the application exited with 0.
  pub run_holds_iff :
      (as' : List Assertion)
      → (run_holds result events metrics as' ≡ true)
        ↔ (All (Holds result events metrics) as' × (result.application.exit_code ≡ pos 0))
  run_holds_iff as' =
      and_iff _ _ _ _ (all_iff _ _ assertion_holds_iff as')
        (is_zero_iff result.application.exit_code)
