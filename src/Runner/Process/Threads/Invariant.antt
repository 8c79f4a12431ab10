-- ===== src/Runner/Process/Threads/Invariant.antt =====
-- What holds of the two threads in every reachable state.
use vdev_lab.Base.{
  ◌≡◌, ◌≢◌, ◌⊎◌, sym, ◌∙◌, inl, inr, refl, Bool, false, List, String, Option, none, some, ℕ, arith,
}
use vdev_lab.Base.Int.{ℤ}
use vdev_lab.Base.Result.{
  Result, ok, err, Exception, runner_error, os_error, application_timeout_error,
}
use vdev_lab.Runner.Records.{ApplicationResult}
use vdev_lab.Runner.Process.{result_of}
use vdev_lab.Runner.Process.Threads.{
  Shared, Collect, exits, communicates, fails, ends, Pc, polling, signalling, waiting, waited,
  killing, joining, joined, reading, finished, Call, poll_ended, poll_running, signal, signal_fails,
  wait_over, wait_ended, wait_alive, kill, kill_fails, join_ended, join_timeout, alive_after,
  dead_after, read, System, Step, collector, caller, started, Entry, rejected, not_positive, Reach,
  here, next, set_forced,
}

-- A dead collector has left its output or an error, and the output comes with the return code of the
-- process.
pub record IsSound (m : Shared) : Type 0 where
  pub left : m.alive ≡ false → (m.output ≢ none) ⊎ (m.error ≢ none)
  pub coded : m.output ≢ none → m.returncode ≢ none
  pub exact : m.returncode ≢ none → m.returncode ≡ m.exit

Collect-IsSound : {m m' : Shared} → Collect m m' → IsSound m → IsSound m'
Collect-IsSound (exits code e) s = ground (arith, s.left, s.coded, s.exact)
Collect-IsSound (communicates code texts a o f e) s = ground (arith, s.left, s.coded, s.exact)
Collect-IsSound (fails x a o) s = ground (arith, s.left, s.coded, s.exact)
Collect-IsSound (ends a h) s = ground (arith, s.left, s.coded, s.exact)

-- What a call may return or raise, against the state of the process.
abbrev pub Outcome : List String → Shared → Result ApplicationResult → Type 0
Outcome command m (ok r) =
    (m.alive ≡ false)
    × (r.command ≡ command)
    × (m.exit ≡ some r.exit_code)
    × (m.output ≡ some (r.stdout, r.stderr))
    × (m.error ≡ none)
    × (r.timed_out ≡ false)
Outcome command m (err e) =
    ((timeout_ms : ℕ) × (e ≡ application_timeout_error command timeout_ms))
    ⊎ ((e ≡ runner_error "failed to collect application output") × (m.error ≢ none))
    ⊎ ((message : String) × (e ≡ os_error message))
    ⊎ ((name : String) × (e ≡ not_positive name))

-- Where the caller has seen that the collector is dead.
abbrev pub IsPlaced : List String → Shared → Pc → Type 0
IsPlaced command m (joined none forced) = m.alive ≡ false
IsPlaced command m (reading forced) = m.alive ≡ false
IsPlaced command m (finished r) = Outcome command m r
IsPlaced command m _ = Unit

Collect-dead : {m m' : Shared} → Collect m m' → m.alive ≡ false → m'.alive ≡ false
Collect-dead (exits code e) h = h
Collect-dead (communicates code texts a o f e) h = h
Collect-dead (fails x a o) h = h
Collect-dead (ends a k) h = refl

Collect-Outcome :
    (command : List String) (r : Result ApplicationResult) {m m' : Shared}
    → Collect m m'
    → Outcome command m r
    → Outcome command m' r
Collect-Outcome command (ok r) (exits code e) (a, b, c, d, f, g) = cc
Collect-Outcome command (ok r) (communicates code texts al o er e) (a, b, c, d, f, g) = cc
Collect-Outcome command (ok r) (fails x al o) (a, b, c, d, f, g) = cc
Collect-Outcome command (ok r) (ends al k) (a, b, c, d, f, g) = cc
Collect-Outcome command (err e) (exits code x) h = h
Collect-Outcome command (err e) (communicates code texts a o f x) h = h
Collect-Outcome command (err e) (fails x a o) (inl t) = inl t
Collect-Outcome command (err e) (fails x a o) (inr (inl (p, q))) = inr (inl (p, λ k. cc))
Collect-Outcome command (err e) (fails x a o) (inr (inr u)) = inr (inr u)
Collect-Outcome command (err e) (ends a k) h = h

Collect-IsPlaced :
    (command : List String) (p : Pc) {m m' : Shared}
    → Collect m m'
    → IsPlaced command m p
    → IsPlaced command m' p
Collect-IsPlaced command (joined none forced) c h = Collect-dead c h
Collect-IsPlaced command (reading forced) c h = Collect-dead c h
Collect-IsPlaced command (finished r) c h = Collect-Outcome command r c h
Collect-IsPlaced command (joined (some t) forced) c h = tt
Collect-IsPlaced command (polling g) c h = tt
Collect-IsPlaced command (signalling g) c h = tt
Collect-IsPlaced command (waiting g) c h = tt
Collect-IsPlaced command waited c h = tt
Collect-IsPlaced command killing c h = tt
Collect-IsPlaced command (joining t f) c h = tt

module _ (command : List String) (forced : Bool) (m : Shared) (s : IsSound m)
    (dead : m.alive ≡ false) where
  read_values-Outcome :
      (error : Option Exception) (output : Option (String × String)) (code : Option ℤ)
      → m.error ≡ error
      → m.output ≡ output
      → m.returncode ≡ code
      → Outcome command m (set_forced forced (result_of command error output code))
  read_values-Outcome (some e) output code h k l = inr (inl (refl, λ x. cc))
  read_values-Outcome none (some (stdout, stderr)) (some code) h k l =
      let ended = s.exact (λ x. cc) in (dead, refl, sym ended ∙ l, k, h, refl)
  read_values-Outcome none (some texts) none h k l = absurd (s.coded (λ x. cc) l)
  read_values-Outcome none none code h k l =
      absurd (elim (s.left dead) [ inl f ↦ f k | inr f ↦ f h ])

  result_of-Outcome :
      Outcome command m (set_forced forced (result_of command m.error m.output m.returncode))
  result_of-Outcome = read_values-Outcome m.error m.output m.returncode refl refl refl

Call-IsSound :
    (command : List String) {m m' : Shared} {p p' : Pc}
    → Call command m p m' p'
    → IsSound m
    → IsSound m'
Call-IsSound command (poll_ended code e) s = ground (arith, s.left, s.coded, s.exact)
Call-IsSound command poll_running s = s
Call-IsSound command signal s = s
Call-IsSound command (signal_fails message) s = s
Call-IsSound command wait_over s = s
Call-IsSound command (wait_ended a) s = s
Call-IsSound command (wait_alive a) s = s
Call-IsSound command kill s = s
Call-IsSound command (kill_fails message) s = s
Call-IsSound command (join_ended a) s = s
Call-IsSound command join_timeout s = s
Call-IsSound command (alive_after a) s = s
Call-IsSound command (dead_after a) s = s
Call-IsSound command read s = s

Call-IsPlaced :
    (command : List String) {m m' : Shared} {p p' : Pc}
    → Call command m p m' p'
    → IsSound m
    → IsPlaced command m p
    → IsPlaced command m' p'
Call-IsPlaced command (poll_ended code e) s h = tt
Call-IsPlaced command poll_running s h = tt
Call-IsPlaced command signal s h = tt
Call-IsPlaced command (signal_fails message) s h = inr (inr (inl (message, refl)))
Call-IsPlaced command wait_over s h = tt
Call-IsPlaced command (wait_ended a) s h = tt
Call-IsPlaced command (wait_alive a) s h = tt
Call-IsPlaced command kill s h = tt
Call-IsPlaced command (kill_fails message) s h = inr (inr (inl (message, refl)))
Call-IsPlaced command (join_ended {timeout_ms = none} a) s h = a
Call-IsPlaced command (join_ended {timeout_ms = some t} a) s h = tt
Call-IsPlaced command join_timeout s h = tt
Call-IsPlaced command (alive_after {timeout_ms = none} a) s h = cc
Call-IsPlaced command (alive_after {timeout_ms = some t} a) s h = inl (t, refl)
Call-IsPlaced command (dead_after a) s h = a
Call-IsPlaced command {m} (read {forced = forced}) s h = result_of-Outcome command forced m s h

pub record IsConsistent (command : List String) (s : System) : Type 0 where
  pub sound : IsSound s.mem
  pub placed : IsPlaced command s.mem s.pc

Step-IsConsistent :
    (command : List String) {s t : System}
    → Step command s t
    → IsConsistent command s
    → IsConsistent command t
Step-IsConsistent command {s} (collector c) i = record {
  sound = Collect-IsSound c i.sound;
  placed = Collect-IsPlaced command s.pc c i.placed;
}
Step-IsConsistent command (caller c) i = record {
  sound = Call-IsSound command c i.sound;
  placed = Call-IsPlaced command c i.sound i.placed;
}

Entry-IsConsistent :
    (command : List String) {p : Pc}
    → Entry p
    → IsConsistent command (record { mem = started; pc = p })
Entry-IsConsistent command Entry.collect_all = record { sound = ground arith; placed = tt }
Entry-IsConsistent command (Entry.collect t h) = record { sound = ground arith; placed = tt }
Entry-IsConsistent command (Entry.terminate g h) = record { sound = ground arith; placed = tt }
Entry-IsConsistent command (rejected name) = record {
  sound = ground arith;
  placed = inr (inr (inr (name, refl)));
}

pub Reach-IsConsistent :
    (command : List String) {p : Pc} {s : System}
    → Entry p
    → Reach command p s
    → IsConsistent command s
Reach-IsConsistent command e here = Entry-IsConsistent command e
Reach-IsConsistent command e (next r st) =
    Step-IsConsistent command st (Reach-IsConsistent command e r)
