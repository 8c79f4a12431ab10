-- ===== src/Analysis/Log/Sound.antt =====
-- What the log parser of analysis.py returns: one event for each line that is not blank, in the order
-- of lines and of times.
use vdev_lab.Base.{
  ℕ, suc, ◌+◌, ◌≤◌, ◌<◌, String, ◌≡◌, refl, false, not, List, [], ◌∷◌, length, count, All, All-map,
  Follows, Linked, Option, none, some, arith, is_blank, splitlines, sym, ap, Bool-cases, inl, inr,
}
use mathlib.Core.Path.{subst}
use vdev_lab.Base.Value.{Value, str, get}
use vdev_lab.Base.Result.{Result, ok, Ensures, Ensures-ok, Ensures-bind, raise_if-eq-ok}
use vdev_lab.Analysis.Records.{ApplicationLogEvent}
use vdev_lab.Analysis.Log.{
  require_event_name, parse_log_value, parse_lines, parse_application_log, goes_back,
}

require_event_name-ne :
    (v : Value) (line : ℕ) → Ensures (λ s. is_blank s ≡ false) (require_event_name v line)
unfolding require_event_name
require_event_name-ne (str s) line = record { at = λ t h. ground arith }
require_event_name-ne _ line = record { at = λ t h. cc }

-- Not earlier than the line before, if there was one.
abbrev NotBefore : Option ℕ → ℕ → Type 0
NotBefore none t = Unit
NotBefore (some s) t = s ≤ t

not_before : (previous : Option ℕ) (t : ℕ) → goes_back previous t ≡ false → NotBefore previous t
not_before none t h = tt
not_before (some s) t h = ground arith

abbrev IsParsed : ℕ → Option ℕ → ApplicationLogEvent → Type 0
IsParsed line previous e =
    (e.line ≡ line) × NotBefore previous e.timestamp_ms × (is_blank e.event ≡ false)

parse_log_value-IsParsed :
    (v : Value) (line : ℕ) (previous : Option ℕ)
    → Ensures (IsParsed line previous) (parse_log_value v line previous)
unfolding parse_log_value
parse_log_value-IsParsed v line previous = Ensures-bind _ _ λ m _. Ensures-bind _ _ λ t _.
    Ensures-bind _ _ λ _ e. Ensures-bind _ _ λ name named. Ensures-ok _ (
      refl,
      not_before previous t (raise_if-eq-ok (goes_back previous t) _ e),
      (require_event_name-ne (get m "event") line).at name named,
    )

-- The next event stands on a later line, and its time is not earlier.
abbrev pub Later : ApplicationLogEvent → ApplicationLogEvent → Type 0
Later e f = (e.line < f.line) × (e.timestamp_ms ≤ f.timestamp_ms)

abbrev pub IsLogEvent : ℕ → ℕ → ApplicationLogEvent → Type 0
IsLogEvent first last e = (first ≤ e.line) × (e.line < last) × (is_blank e.event ≡ false)

abbrev StartsAfter : Option ℕ → ℕ → List ApplicationLogEvent → Type 0
StartsAfter previous n [] = Unit
StartsAfter previous n (e ∷ es) = NotBefore previous e.timestamp_ms × (n ≤ e.line)

starts_later :
    (previous : Option ℕ) (n : ℕ) (es : List ApplicationLogEvent)
    → StartsAfter previous (suc n) es
    → StartsAfter previous n es
starts_later previous n [] _ = tt
starts_later previous n (e ∷ es) (p, q) = (p, omega arith)

Follows-start :
    (e : ApplicationLogEvent) (es : List ApplicationLogEvent)
    → StartsAfter (some e.timestamp_ms) (suc e.line) es
    → Follows Later e es
Follows-start e [] _ = tt
Follows-start e (f ∷ es) (p, q) = (q, p)

widen :
    (n m n' m' : ℕ) (es : List ApplicationLogEvent)
    → n' ≤ n
    → m ≤ m'
    → All (IsLogEvent n m) es
    → All (IsLogEvent n' m') es
widen n m n' m' es h k all =
    All-map (IsLogEvent n m) (IsLogEvent n' m') es (λ e (p, q, r). (omega arith, omega arith, r))
      all

abbrev AreLogEvents : ℕ → Option ℕ → List String → List ApplicationLogEvent → Type 0
AreLogEvents n previous lines es =
    Linked Later es
    × StartsAfter previous n es
    × All (IsLogEvent n (n + length lines)) es
    × (length es ≡ count (λ line. not (is_blank line)) lines)

module _ (json_loads : String → Result Value) where
  parse_lines-AreLogEvents :
      (n : ℕ) (previous : Option ℕ) (lines : List String)
      → Ensures (AreLogEvents n previous lines) (parse_lines json_loads n previous lines)
  unfolding parse_lines
  parse_lines-AreLogEvents n previous [] = Ensures-ok _ (tt, tt, tt, refl)
  parse_lines-AreLogEvents n previous (line ∷ lines) = elim (Bool-cases (is_blank line)) [
    | inl blank ↦
        rw (blank, parse_lines)
          (record {
            at = λ es h.
                let (l, s, a, c) = (parse_lines-AreLogEvents (suc n) previous lines).at es h in
                (
                  l,
                  starts_later previous n es s,
                  widen _ _ n _ es (omega arith) (omega arith) a,
                  rw blank c,
                );
          })
    | inr text ↦
        rw (text, parse_lines)
          (Ensures-bind _ _ λ v _. Ensures-bind _ _ λ e parsed. Ensures-bind _ _ λ es h.
            let (same, ordered, named) = (parse_log_value-IsParsed v n previous).at e parsed in
            let (l, s, a, c) =
              (parse_lines-AreLogEvents (suc n) (some e.timestamp_ms) lines).at es h in
            let s' = subst (λ k. StartsAfter (some e.timestamp_ms) (suc k) es) (sym same) s in
            Ensures-ok _ (
              (Follows-start e es s', l),
              (ordered, omega arith),
              ((omega arith, omega arith, named), widen _ _ n _ es (omega arith) (omega arith) a),
              rw text (ap suc c),
            ))
  ]

  -- The log parser returns one event for each line that is not blank, on increasing lines of the text
  -- and with times that never fall; every event has a name that is not blank.
  pub parse_application_log-Later :
      (text : String) {es : List ApplicationLogEvent}
      → parse_application_log json_loads text ≡ ok es
      → Linked Later es
        × All (IsLogEvent 1 (suc (length (splitlines text)))) es
        × (length es ≡ count (λ line. not (is_blank line)) (splitlines text))
  unfolding parse_application_log
  parse_application_log-Later text {es} h =
      let (l, s, a, c) = (parse_lines-AreLogEvents 1 none (splitlines text)).at es h in
      (l, widen _ _ 1 _ es (omega arith) (omega arith) a, c)
