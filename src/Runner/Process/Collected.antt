-- ===== src/Runner/Process/Collected.antt =====
-- What runner.py's `ApplicationProcess` returns from `collect`, `terminate` and `collect_with_timeout`.
use vdev_lab.Base.{
  ℕ, suc, String, ◌≡◌, refl, sym, ap, ◌∙◌, subst, inl, inr, Bool, true, false, List, Option, none,
  some,
}
use vdev_lab.Base.Int.{ℤ, pos}
use vdev_lab.Base.Result.{
  Result, ok, err, Exception, ok-injective, err-injective, application_timeout_error, runner_error,
}
use vdev_lab.Base.Action.{lift, >>=-ok, >>=-eq-ok, try_except-err, try_except-eq-ok, err_ne_ok}
use vdev_lab.Runner.Records.{ApplicationResult}
use vdev_lab.Runner.Process.{
  ProcessCalls, checked_timeout, result_of, process_result, signal_group, collect, collect_joined,
  finish, terminate, terminate_running, on_timeout, collect_with_timeout,
}

module _ {ℓ} {W : Type ℓ} (os : ProcessCalls W) (command : List String) where
  -- The result of the command whose collector is dead in the given world, and left there its output
  -- and no error, with the exit code of the process.
  pub record IsCollected (end : W) (result : ApplicationResult) : Type 0 where
    pub dead : os.is_alive end ≡ false
    pub unfailed : os.collector_error end ≡ none
    pub named : result.command ≡ command
    pub coded : os.returncode end ≡ some result.exit_code
    pub output : os.output end ≡ some (result.stdout, result.stderr)

  result_of-IsCollected :
      (w : W) (error : Option Exception) (output : Option (String × String)) (code : Option ℤ)
      {result : ApplicationResult}
      → os.is_alive w ≡ false
      → os.collector_error w ≡ error
      → os.output w ≡ output
      → os.returncode w ≡ code
      → result_of command error output code ≡ ok result
      → IsCollected w result × (result.timed_out ≡ false)
  result_of-IsCollected w (some e) output code d x y z h = cc
  result_of-IsCollected w none (some (stdout, stderr)) (some code) d x y z h =
      let r = ok-injective h in
      (
        record {
          dead = d;
          unfailed = x;
          named = sym (ap (λ t. t.command) r);
          coded = z ∙ ap (λ t. some t.exit_code) r;
          output = y ∙ ap (λ t. some (t.stdout, t.stderr)) r;
        },
        sym (ap (λ t. t.timed_out) r),
      )
  result_of-IsCollected w none (some texts) none d x y z h = cc
  result_of-IsCollected w none none code d x y z h = cc

  collect_joined-IsCollected :
      (alive : Bool) (timeout : Option ℕ) (w : W) {result : ApplicationResult} {end : W}
      → os.is_alive w ≡ alive
      → collect_joined os command alive timeout w ≡ (ok result, end)
      → IsCollected end result × (result.timed_out ≡ false)
  unfolding process_result
  collect_joined-IsCollected true (some t) w a h = absurd (err_ne_ok (ap (λ t. t.0) h))
  collect_joined-IsCollected true none w a h = absurd (err_ne_ok (ap (λ t. t.0) h))
  collect_joined-IsCollected false timeout w {result} a h =
      let c =
        result_of-IsCollected w (os.collector_error w) (os.output w) (os.returncode w) a refl refl
          refl (ap (λ t. t.0) h) in
      subst (λ v. IsCollected v result × (result.timed_out ≡ false)) (ap (λ t. t.1) h) c

  collect-IsCollected :
      (timeout_ms : Option ℤ) (w : W) {result : ApplicationResult} {end : W}
      → collect os command timeout_ms w ≡ (ok result, end)
      → IsCollected end result × (result.timed_out ≡ false)
  unfolding collect
  collect-IsCollected timeout_ms w h =
      let (timeout, w1, _, h1) = >>=-eq-ok (lift (checked_timeout timeout_ms "timeout_ms")) _ w h in
      collect_joined-IsCollected (os.is_alive (os.join timeout w1)) timeout (os.join timeout w1)
        refl h1

  -- `dataclasses.replace` of the two flags.
  flagged-IsCollected :
      (end : W) (r : ApplicationResult) (timed_out forced : Bool)
      → IsCollected end r
      → IsCollected end (record r { timed_out = timed_out; forced = forced })
  flagged-IsCollected end r timed_out forced c = record {
    dead = c.dead;
    unfailed = c.unfailed;
    named = c.named;
    coded = c.coded;
    output = c.output;
  }

  IsCollected-replace :
      (w : W) (forced : Bool) {result r : ApplicationResult} {end w2 : W}
      → collect os command none w ≡ (ok r, w2)
      → ◌≡◌ {A = Result ApplicationResult × W}
          (ok (record r { forced = forced }), w2)
          (ok result, end)
      → IsCollected end result × (result.timed_out ≡ false)
  IsCollected-replace w forced {result} {r} {end} {w2} e h =
      let (c, t) = collect-IsCollected none w e in
      subst (λ x. IsCollected end x × (x.timed_out ≡ false)) (ok-injective (ap (λ y. y.0) h))
        (subst (λ v. IsCollected v (record r { forced = forced }) × (r.timed_out ≡ false))
          (ap (λ y. y.1) h) (flagged-IsCollected w2 r r.timed_out forced c, t))

  finish-IsCollected :
      (alive : Bool) (w : W) {result : ApplicationResult} {end : W}
      → finish os command alive w ≡ (ok result, end)
      → IsCollected end result × (result.timed_out ≡ false)
  finish-IsCollected true w h =
      let (_, w1, _, h1) = >>=-eq-ok (signal_group os command true) _ w h in
      let (r, w2, e, h2) = >>=-eq-ok (collect os command none) _ w1 h1 in
      IsCollected-replace w1 true e h2
  finish-IsCollected false w h =
      let (r, w2, e, h2) = >>=-eq-ok (collect os command none) _ w h in
      IsCollected-replace w false e h2

  terminate_running-IsCollected :
      (grace : Option ℕ) (status : Option ℤ) (w : W) {result : ApplicationResult} {end : W}
      → terminate_running os command grace status w ≡ (ok result, end)
      → IsCollected end result × (result.timed_out ≡ false)
  terminate_running-IsCollected grace (some code) w h = collect-IsCollected none w h
  terminate_running-IsCollected grace none w h =
      let (_, w1, _, h1) = >>=-eq-ok (signal_group os command false) _ w h in
      finish-IsCollected (os.is_alive (os.join grace w1)) (os.join grace w1) h1

  terminate-IsCollected :
      (grace_ms : ℤ) (w : W) {result : ApplicationResult} {end : W}
      → terminate os command grace_ms w ≡ (ok result, end)
      → IsCollected end result × (result.timed_out ≡ false)
  unfolding terminate
  terminate-IsCollected grace_ms w h =
      let (grace, w1, _, h1) =
        >>=-eq-ok (lift (checked_timeout (some grace_ms) "grace_ms")) _ w h in
      let (status, w2, _, h2) = >>=-eq-ok os.poll _ w1 h1 in
      terminate_running-IsCollected grace status w2 h2

  -- What `collect` does, by whether the collector still runs when the join is over.
  collect-collect_joined :
      (n : ℕ) (w : W)
      → collect os command (some (pos (suc n))) w
        ≡ collect_joined os command
            (os.is_alive (os.join (some (suc n)) w))
            (some (suc n))
            (os.join (some (suc n)) w)
  unfolding collect checked_timeout
  collect-collect_joined n w =
      >>=-ok (lift (checked_timeout (some (pos (suc n))) "timeout_ms")) _ w refl

  collect-timeout_error :
      (n : ℕ) (w : W)
      → os.is_alive (os.join (some (suc n)) w) ≡ true
      → collect os command (some (pos (suc n))) w
        ≡ (err (application_timeout_error command (suc n)), os.join (some (suc n)) w)
  collect-timeout_error n w a = collect-collect_joined n w ∙ rw a refl

  result_of-err :
      (error : Option Exception) (output : Option (String × String)) (code : Option ℤ)
      {e : Exception}
      → result_of command error output code ≡ err e
      → (message : String) × (e ≡ runner_error message)
  result_of-err (some x) output code h = (_, sym (err-injective h))
  result_of-err none (some (stdout, stderr)) (some code) h = cc
  result_of-err none (some texts) none h = (_, sym (err-injective h))
  result_of-err none none code h = (_, sym (err-injective h))

  -- Where the collector ended in time, no exception of `collect` is a timeout.
  collect-runner_error :
      (n : ℕ) (w : W) {e : Exception} {w' : W}
      → os.is_alive (os.join (some (suc n)) w) ≡ false
      → collect os command (some (pos (suc n))) w ≡ (err e, w')
      → (message : String) × (e ≡ runner_error message)
  unfolding process_result
  collect-runner_error n w {e} {w'} a h =
      let k : collect_joined os command false (some (suc n)) (os.join (some (suc n)) w)
          ≡ (err e, w') =
        rw a at (sym (collect-collect_joined n w) ∙ h) in
      result_of-err _ _ _ (ap (λ t. t.0) k)

  raised_again :
      (grace_ms : ℤ) (message : String) (e : Exception) (w : W) {result : ApplicationResult}
      {end : W}
      → e ≡ runner_error message
      → on_timeout os command grace_ms e w ≡ (ok result, end)
      → ⊥
  raised_again grace_ms message e w {result} {end} q h =
      let k : on_timeout os command grace_ms (runner_error message) w ≡ (ok result, end) =
        subst (λ x. on_timeout os command grace_ms x w ≡ (ok result, end)) q h in
      err_ne_ok (ap (λ t. t.0) k)

  on_timeout-IsCollected :
      (grace_ms : ℤ) (t : ℕ) (w : W) {result : ApplicationResult} {end : W}
      → on_timeout os command grace_ms (application_timeout_error command t) w ≡ (ok result, end)
      → IsCollected end result × (result.timed_out ≡ true)
  on_timeout-IsCollected grace_ms t w {result = result} {end = end} h =
      let (r, w2, e, h2) = >>=-eq-ok (terminate os command grace_ms) _ w h in
      let (c, _) = terminate-IsCollected grace_ms w e in
      subst (λ x. IsCollected end x × (x.timed_out ≡ true)) (ok-injective (ap (λ y. y.0) h2))
        (subst (λ v. IsCollected v (record r { timed_out = true }) × (true ≡ true))
          (ap (λ y. y.1) h2) (flagged-IsCollected w2 r true r.forced c, refl))

  -- With a positive timeout, in every branch in which `collect_with_timeout` returns (in time, behind
  -- the first signal, behind the second, or for a process that had ended), its result is of the world
  -- that it returns in: the collector is dead and has left no error, and the output and the exit code
  -- are those that stand there. The result is marked as timed out if and only if the collector still
  -- ran when the timeout was over.
  pub collect_with_timeout-IsCollected :
      (n : ℕ) (grace_ms : ℤ) (w : W) {result : ApplicationResult} {end : W}
      → collect_with_timeout os command (pos (suc n)) grace_ms w ≡ (ok result, end)
      → IsCollected end result × (result.timed_out ≡ os.is_alive (os.join (some (suc n)) w))
  unfolding collect_with_timeout
  collect_with_timeout-IsCollected n grace_ms w {result} {end} h =
      split (os.is_alive (os.join (some (suc n)) w)) refl
    where
      split :
          (alive : Bool)
          → os.is_alive (os.join (some (suc n)) w) ≡ alive
          → IsCollected end result × (result.timed_out ≡ os.is_alive (os.join (some (suc n)) w))
      split true a =
          let expired =
            try_except-err (collect os command (some (pos (suc n))))
              (on_timeout os command grace_ms) w (collect-timeout_error n w a) in
          let (c, t) = on_timeout-IsCollected grace_ms (suc n) _ (sym expired ∙ h) in (c, t ∙ sym a)
      split false a = elim (try_except-eq-ok _ _ w h) [
        | inl k ↦ let (c, t) = collect-IsCollected _ w k in (c, t ∙ sym a)
        | inr (e, w', k, l) ↦
            let (message, q) = collect-runner_error n w a k in
            absurd (raised_again grace_ms message e w' q l)
      ]
