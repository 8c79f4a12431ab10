-- ===== src/Scenario/Assertions/Shape.antt =====
-- The normal form of an assertion, as data, and its encoding as the dict that the parser of
-- scenario.py makes.
use vdev_lab.Base.{ℕ, ◌≤◌, String, ◌≡◌, ◌≢◌, ◌⊎◌, Bool, true, [], ◌∷◌, Option, none, some}
use vdev_lab.Base.Int.{pos}
use vdev_lab.Base.Value.{bool, str, int, Mapping, insert, contains}
use vdev_lab.Scenario.Schema.{log_events}

pub data Assertion : Type 0 where
  event_count : String → ℕ → Option ℕ → Option ℕ → Assertion
  stdout : Option String → Option String → Assertion
  disconnect : Bool → Assertion
  kernel_warnings : ℕ → Assertion

abbrev pub with_number : String → Option ℕ → Mapping → Mapping
with_number key none m = m
with_number key (some n) m = insert key (int (pos n)) m

abbrev pub with_text : String → Option String → Mapping → Mapping
with_text key none m = m
with_text key (some s) m = insert key (str s) m

abbrev pub count_dict : String → ℕ → Mapping
count_dict event count =
    ("type", str "event_count") ∷ ("event", str event) ∷ ("count", int (pos count)) ∷ []

abbrev pub encode_assertion : Assertion → Mapping
encode_assertion (event_count event count within max_latency) =
    with_number "max_latency_ms" max_latency
      (with_number "within_ms" within (count_dict event count))
encode_assertion (stdout contained absent) =
    with_text "not_contains" absent (with_text "contains" contained (("type", str "stdout") ∷ []))
encode_assertion (disconnect expected) =
    ("type", str "disconnect") ∷ ("expected", bool expected) ∷ []
encode_assertion (kernel_warnings count) =
    ("type", str "kernel_warnings") ∷ ("count", int (pos count)) ∷ []

abbrev pub IsWithin : ℕ → Option ℕ → Type 0
IsWithin bound none = Unit
IsWithin bound (some n) = n ≤ bound

abbrev pub IsLatency : String → ℕ → Option ℕ → Type 0
IsLatency event bound none = Unit
IsLatency event bound (some n) = (event ≡ "RECOVERY_SUCCESS") × (n ≤ bound)

abbrev pub IsText : Option String → Type 0
IsText none = Unit
IsText (some s) = s ≢ ""

abbrev pub IsValidAssertion : ℕ → Assertion → Type 0
IsValidAssertion timeout_ms (event_count event count within max_latency) =
    (contains event log_events ≡ true)
    × (event ≢ "")
    × (1 ≤ count)
    × (count ≤ 1_000_000)
    × IsWithin timeout_ms within
    × IsLatency event timeout_ms max_latency
IsValidAssertion timeout_ms (stdout contained absent) =
    IsText contained × IsText absent × ((contained ≢ none) ⊎ (absent ≢ none))
IsValidAssertion timeout_ms (disconnect expected) = Unit
IsValidAssertion timeout_ms (kernel_warnings count) = count ≤ 1_000_000
