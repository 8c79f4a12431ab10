-- ===== src/Runner/Device/Write.antt =====
-- The loop of runner.py's `LinuxDeviceBackend.write`, where the device takes part of the bytes at a
-- time.
use mathlib.Core.List.{map-append}
use vdev_lab.Base.{
  ℕ, zero, suc, ◌<◌, ◌≤◌, ◌≡◌, refl, sym, ap, ◌∙◌, List, [], ◌∷◌, ◌++◌, length, take, drop, some,
  take-drop, length-drop, append_assoc, append_nil, map, eqb, false, arith,
}
use vdev_lab.Base.Result.{ok}
use vdev_lab.Runner.Device.{SystemCalls, written, Opened, write_loop, write}

-- A device that, as long as it is ready, takes some of the bytes of a write that is not empty, at least
-- one and at most all, keeps each as an item behind what it was sent before, and stays ready.
pub record Accepts {ℓ κ} {K : Type ℓ} {A : Type κ} (os : SystemCalls K) (n : ℕ) (item : ℕ → A)
    (sent : K → List A) (Ready : K → Type 0) : Type (ℓ ⊔ κ) where
  pub taken : ℕ → List ℕ → K → ℕ
  pub after : ℕ → List ℕ → K → K
  pub progress : (b : ℕ) (bytes : List ℕ) (k : K) → Ready k → 1 ≤ taken b bytes k
  pub fits : (b : ℕ) (bytes : List ℕ) (k : K) → Ready k → taken b bytes k ≤ length (b ∷ bytes)
  pub replies :
      (b : ℕ) (bytes : List ℕ) (k : K)
      → Ready k
      → os.write_file n (b ∷ bytes) k ≡ (written (taken b bytes k), after b bytes k)
  pub keeps :
      (b : ℕ) (bytes : List ℕ) (k : K)
      → Ready k
      → sent (after b bytes k) ≡ sent k ++ map item (take (taken b bytes k) (b ∷ bytes))
  pub stays : (b : ℕ) (bytes : List ℕ) (k : K) → Ready k → Ready (after b bytes k)

positive_eqb : (n : ℕ) → 1 ≤ n → eqb n 0 ≡ false
positive_eqb n h = ground arith

write_loop-step {ℓ} :
    {K : Type ℓ} (os : SystemCalls K) (fuel n byte : ℕ) (bytes : List ℕ) (k : K) {c : ℕ} {k' : K}
    → os.write_file n (byte ∷ bytes) k ≡ (written c, k')
    → 1 ≤ c
    → write_loop os (suc fuel) n (byte ∷ bytes) k ≡ write_loop os fuel n (drop c (byte ∷ bytes)) k'
unfolding write_loop
write_loop-step os fuel n byte bytes k {c = c} e h =
    rw (e, write_loop)
      (rw (positive_eqb c h) (ap (λ t. write_loop os fuel n (drop c (byte ∷ bytes)) t.1) e))

module _ {ℓ κ} {K : Type ℓ} {A : Type κ} (os : SystemCalls K) (n : ℕ) (item : ℕ → A)
    (sent : K → List A) (Ready : K → Type 0) (device : Accepts os n item sent Ready) where
  write_loop-sent :
      (fuel : ℕ) (content : List ℕ) (k : K)
      → Ready k
      → length content < fuel
      → (k' : K) × (write_loop os fuel n content k ≡ (some (ok tt), k'))
        × (sent k' ≡ sent k ++ map item content)
  unfolding write_loop
  write_loop-sent zero content k ready h = absurd (omega arith)
  write_loop-sent (suc fuel) [] k ready h = (k, refl, sym (append_nil (sent k)))
  write_loop-sent (suc fuel) (byte ∷ bytes) k ready h =
      let content = byte ∷ bytes in
      let c = device.taken byte bytes k in
      let least = device.progress byte bytes k ready in
      let (k', e, s) =
        write_loop-sent fuel (drop c content) (device.after byte bytes k)
          (device.stays byte bytes k ready) (omega (arith, length-drop c content, least)) in
      (
        k',
        write_loop-step os fuel n byte bytes k (device.replies byte bytes k ready) least ∙ e,
        s
            ∙ ap (λ l. l ++ map item (drop c content)) (device.keeps byte bytes k ready)
            ∙ append_assoc (sent k) (map item (take c content)) (map item (drop c content))
            ∙ ap (λ l. sent k ++ l)
                (sym (map-append item (take c content) (drop c content))
                  ∙ ap (λ l. map item l) (take-drop c content)),
      )

  -- A ready device gets all bytes of a write on an open descriptor, once and in order, where it takes
  -- at least one byte of each call that is not empty: on fuel for one call more than there are bytes
  -- `write` returns, and the descriptor is still open.
  pub write-sent :
      (content : List ℕ) (k : K)
      → Ready k
      → (s : Opened K) × (write os
            (suc (length content))
            content
            (record { kernel = k; fd = some n })
          ≡ (some (ok tt), s))
        × (s.fd ≡ some n)
        × (sent s.kernel ≡ sent k ++ map item content)
  unfolding write
  write-sent [] k ready =
      (record { kernel = k; fd = some n }, refl, refl, sym (append_nil (sent k)))
  write-sent (byte ∷ bytes) k ready =
      let content = byte ∷ bytes in
      let (k', e, s) = write_loop-sent (suc (length content)) content k ready (omega arith) in
      (record { kernel = k'; fd = some n }, rw e refl, refl, s)
