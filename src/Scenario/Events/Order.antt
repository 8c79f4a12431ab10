-- ===== src/Scenario/Events/Order.antt =====
-- The event list of a scenario: every event is valid, and the times never fall.
use vdev_lab.Base.{
  ℕ, suc, ◌≡◌, refl, sym, ap, ◌∙◌, List, [], ◌∷◌, map, length, length-map, All, Linked, arith, ltb,
}
use vdev_lab.Base.Value.{Value, list, Items, nil, cons, Mapping, values}
use vdev_lab.Base.Result.{
  ok, Ensures, Ensures-ok, Ensures-bind, raise_if-eq-ok, >>=-eq-ok, ok-injective,
}
use vdev_lab.Scenario.Events.{
  parse_event, parse_all_events, check_order, check_all_orders, parse_event_list,
}
use vdev_lab.Scenario.Events.Shape.{Event, encode_event, IsValidEvent, Precedes}
use vdev_lab.Scenario.Events.Actions.{parse_action-IsActionDict}

abbrev IsEventEntry : ℕ → ℕ → ℕ × ℕ × Mapping → Type 0
IsEventEntry timeout_ms i r =
    (e : Event) × IsValidEvent timeout_ms e × (r ≡ (e.at_ms, i, encode_event e))

parse_event-IsEventEntry :
    (v : Value) (i timeout_ms : ℕ)
    → Ensures (IsEventEntry timeout_ms i) (parse_event v i timeout_ms)
unfolding parse_event
parse_event-IsEventEntry v i timeout_ms = Ensures-bind _ _ λ event _. Ensures-bind _ _ λ _ _.
    Ensures-bind _ _ λ raw_at _. Ensures-bind _ _ λ at_ms _. Ensures-bind _ _ λ _ in_time.
      Ensures-bind _ _ λ raw_action _. Ensures-bind _ _ λ action _. Ensures-bind _ _ λ normalized e.
        let (a, v, e') = (parse_action-IsActionDict event _ action).at normalized e in
        let late = raise_if-eq-ok (ltb timeout_ms at_ms) _ in_time in
        Ensures-ok _ (record { at_ms = at_ms; action = a }, (ground arith, v), rw e')

-- The entries of a list of events, from the given index on.
abbrev pub enumerate : ℕ → List Event → List (ℕ × ℕ × Mapping)
enumerate i [] = []
enumerate i (e ∷ es) = (e.at_ms, i, encode_event e) ∷ enumerate (suc i) es

abbrev AreEventEntries : ℕ → ℕ → ℕ → List (ℕ × ℕ × Mapping) → Type 0
AreEventEntries timeout_ms i size rs =
    (es : List Event) × All (IsValidEvent timeout_ms) es
    × (length es ≡ size)
    × (rs ≡ enumerate i es)

parse_all_events-AreEventEntries :
    (i : ℕ) (vs : Items) (timeout_ms : ℕ)
    → Ensures (AreEventEntries timeout_ms i (length (values vs))) (parse_all_events i vs timeout_ms)
unfolding parse_all_events
parse_all_events-AreEventEntries i nil timeout_ms = Ensures-ok _ ([], tt, refl, refl)
parse_all_events-AreEventEntries i (cons v vs) timeout_ms = Ensures-bind _ _ λ r e.
    Ensures-bind _ _ λ rs e'.
      let (f, v, p) = (parse_event-IsEventEntry v i timeout_ms).at r e in
      let (fs, vs, l, q) = (parse_all_events-AreEventEntries (suc i) vs timeout_ms).at rs e' in
      Ensures-ok _ (f ∷ fs, (v, vs), ap suc l, rw (p, q))

check_order-Linked :
    (i : ℕ) (e : Event) (es : List Event)
    → check_order i e.at_ms (enumerate i es) ≡ ok tt
    → Linked Precedes (e ∷ es)
unfolding check_order
check_order-Linked i e [] h = (tt, tt)
check_order-Linked i e (f ∷ es) h =
    let (_, ordered, rest) = >>=-eq-ok _ _ h in
    let on_time = raise_if-eq-ok (ltb f.at_ms e.at_ms) _ ordered in
    (ground arith, check_order-Linked (suc i) f es rest)

check_all_orders-Linked :
    (es : List Event) → check_all_orders (enumerate 0 es) ≡ ok tt → Linked Precedes es
unfolding check_all_orders
check_all_orders-Linked [] h = tt
check_all_orders-Linked (e ∷ es) h = check_order-Linked 1 e es h

pub map-enumerate :
    (i : ℕ) (es : List Event)
    → map (λ (_, _, normalized). normalized) (enumerate i es) ≡ map encode_event es
map-enumerate i [] = refl
map-enumerate i (e ∷ es) = ap (λ ms. encode_event e ∷ ms) (map-enumerate (suc i) es)

-- The dicts are the encodings of valid events in the order of their times.
abbrev pub AreEvents : ℕ → List Mapping → Type 0
AreEvents timeout_ms ms =
    (es : List Event) × All (IsValidEvent timeout_ms) es
    × Linked Precedes es
    × (ms ≡ map encode_event es)

-- What `_parse_scenario` accepts as the event list is a non-empty list, and it returns the encodings
-- of as many valid events, each within the timeout and none earlier than the one before it.
pub parse_event_list-AreEvents :
    (v : Value) (timeout_ms : ℕ) {ms : List Mapping}
    → parse_event_list v timeout_ms ≡ ok ms
    → (w : Value) × (ws : Items) × (v ≡ list (cons w ws))
      × (length ms ≡ suc (length (values ws)))
      × AreEvents timeout_ms ms
unfolding parse_event_list
parse_event_list-AreEvents (list (cons v vs)) timeout_ms h =
    let (rs, parsed, h') = >>=-eq-ok _ _ h in
    let (u, ordered, e) = >>=-eq-ok _ _ h' in
    let (es, valid, l, q) =
      (parse_all_events-AreEventEntries 0 (cons v vs) timeout_ms).at rs parsed in
    let p = sym (ok-injective e) ∙ rw q (map-enumerate 0 es) in
    (
      v,
      vs,
      refl,
      ap length p ∙ length-map es encode_event ∙ l,
      (es, valid, check_all_orders-Linked es (rw q at ordered), p),
    )
parse_event_list-AreEvents _ timeout_ms h = cc
