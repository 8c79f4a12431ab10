-- ===== src/Runner/Device/Messages.antt =====
-- What `LinuxDeviceBackend` of runner.py tells the device, in the terms of include/vdevlab.h.
use vdev_lab.Base.{
  ℕ, suc, ◌<◌, ◌≤◌, ◌^◌, Bool, true, not, String, ◌≡◌, ◌⊎◌, inl, inr, refl, ap, ◌∙◌, List, [], ◌∷◌,
  ◌++◌, map, Option, none, some, length, eqb, arith, if◌then◌else◌,
}
use vdev_lab.Base.Int.{pos}
use vdev_lab.Base.Result.{Result, ok, err, Exception}
use vdev_lab.Base.Action.{Action, ◌>>=◌, >>=-ok}
use vdev_lab.Scenario.Events.Shape.{
  EventAction, clear, reset, disconnect, write, eio, delay, partial_read, IsValidAction,
}
use vdev_lab.Runner.Records.{DeviceBackend}
use vdev_lab.Runner.Decode.{encode_utf8}
use vdev_lab.Runner.Scheduler.Encoded.{perform}
use vdev_lab.Runner.Fault.{ioc_set_fault, ioc_clear_fault, ioc_reset, ioctl_number, fault_number}
use vdev_lab.Runner.Fault.Payload.{payload_fields, fault_payload-payload_fields}
use vdev_lab.Runner.Device as Device
use vdev_lab.Runner.Device.{SystemCalls, Opened, fileno, set_fault}
use vdev_lab.Runner.Device.Write.{Accepts, write-sent}

-- A message to the device: a request, with the fields of `struct vdevlab_fault_config`, or a byte.
pub data Message : Type 0 where
  reset_device clear_fault other : Message
  configure : (fault_type repeat delay_ms partial_read_bytes : ℕ) → Message
  byte : ℕ → Message

abbrev configured : ℕ × ℕ × ℕ × ℕ → Message
configured (t, r, d, p) = configure t r d p

-- What a request says: `_IOW('V', 1, struct vdevlab_fault_config)`, `_IO('V', 3)` and `_IO('V', 4)`.
abbrev pub request_message : ℕ → List ℕ → Message
request_message request payload =
    if eqb request 0x40105601
    then configured (payload_fields payload)
    else if eqb request 0x5603
    then clear_fault
    else if eqb request 0x5604
    then reset_device
    else other

-- What the device is told for an event of a scenario.
abbrev pub messages : EventAction → List Message
messages clear = clear_fault ∷ []
messages reset = reset_device ∷ []
messages (write text) = map byte (encode_utf8 text)
messages (eio n) = configure 1 n 0 0 ∷ []
messages (delay n) = configure 2 0 n 0 ∷ []
messages disconnect = configure 3 0 0 0 ∷ []
messages (partial_read n) = configure 4 0 0 n ∷ []

-- Whether the device is connected behind a message: a fault takes the place of the one before it.
abbrev pub connected_by : Bool → Message → Bool
connected_by c (configure t r d p) = not (eqb t 3)
connected_by c (byte b) = c
connected_by c _ = true

abbrev pub connected : Bool → List Message → Bool
connected c [] = c
connected c (m ∷ ms) = connected (connected_by c m) ms

-- The requests that docs/fault-model.md says are not rejected with `EINVAL`.
abbrev pub IsAcceptable : Message → Type 0
IsAcceptable (configure t r d p) =
    ((t ≡ 1) × (1 ≤ r) × (r ≤ 1000000))
    ⊎ ((t ≡ 2) × (1 ≤ d) × (d ≤ 10000))
    ⊎ ((t ≡ 3) ⊎ ((t ≡ 4) × (1 ≤ p) × (p ≤ 4096)))
IsAcceptable other = ⊥
IsAcceptable _ = Unit

module _ {ℓ} {K : Type ℓ} (os : SystemCalls K) (n : ℕ) (heard : K → List Message) where
  -- By what it has heard since the module was loaded, the device is connected.
  abbrev pub IsConnected : K → Type 0
  IsConnected k = connected true (heard k) ≡ true

  -- A device that hears every acceptable request on the descriptor, and every byte while it is
  -- connected, in order.
  pub record Listens : Type ℓ where
    pub after_request : ℕ → List ℕ → K → K
    pub answers :
        (request : ℕ) (payload : List ℕ) (k : K)
        → IsAcceptable (request_message request payload)
        → os.ioctl n request payload k ≡ (ok tt, after_request request payload k)
    pub hears :
        (request : ℕ) (payload : List ℕ) (k : K)
        → IsAcceptable (request_message request payload)
        → heard (after_request request payload k)
          ≡ heard k ++ (request_message request payload ∷ [])
    pub accepts : Accepts os n byte heard IsConnected

-- What the kernel asks of an event, where the device is connected or not: a delay is neither 0 nor
-- longer than 10 seconds, and nothing is written to a disconnected device.
abbrev pub Fits : Bool → EventAction → Type 0
Fits c (delay d) = (1 ≤ d) × (d ≤ 10000)
Fits c (write text) = c ≡ true
Fits c _ = Unit

module _ {ℓ} {K : Type ℓ} (os : SystemCalls K) (unfinished : Exception) where
  abbrev finished : Option (Result (Unit {0})) × Opened K → Result (Unit {0}) × Opened K
  finished (none, s) = (err unfinished, s)
  finished (some r, s) = (r, s)

  -- `LinuxDeviceBackend` as a backend, with fuel for one call of `os.write` more than there are bytes;
  -- `unfinished` stands for a write that needs more calls.
  unfoldable pub linux_backend : DeviceBackend (Opened K)
  linux_backend = record {
    reset = Device.reset os;
    clear_fault = Device.clear_fault os;
    write = λ content s. finished (Device.write os (suc (length content)) content s);
    set_fault = set_fault os;
    close = Device.close os;
  }

module _ {ℓ κ} {K : Type ℓ} (n : ℕ) (heard : K → List Message) {A : Type κ} where
  -- On the open descriptor `n` of a device that is connected or not, the action returns, keeps the
  -- descriptor open, and the device hears the messages.
  pub record Delivers (c : Bool) (m : Action (Opened K) A) (news : List Message)
      : Type (ℓ ⊔ κ) where
    pub delivers :
        (s : Opened K)
        → s.fd ≡ some n
        → connected true (heard s.kernel) ≡ c
        → (a : A) × (s' : Opened K) × (m s ≡ (ok a, s'))
          × (s'.fd ≡ some n)
          × (heard s'.kernel ≡ heard s.kernel ++ news)

request_set_fault :
    (payload : List ℕ) → request_message ioc_set_fault payload ≡ configured (payload_fields payload)
unfolding ioc_set_fault ioctl_number
request_set_fault payload = refl

request_clear_fault : request_message ioc_clear_fault [] ≡ clear_fault
unfolding ioc_clear_fault ioctl_number
request_clear_fault = refl

request_reset : request_message ioc_reset [] ≡ reset_device
unfolding ioc_reset ioctl_number
request_reset = refl

module _ {ℓ} {K : Type ℓ} (os : SystemCalls K) (n : ℕ) (heard : K → List Message)
    (device : Listens os n heard) (unfinished : Exception) where
  request-Delivers :
      (c : Bool) (request : ℕ) (payload : List ℕ)
      → IsAcceptable (request_message request payload)
      → Delivers n heard c
          (fileno os >>= λ fd. Device.on_kernel os (os.ioctl fd request payload))
          (request_message request payload ∷ [])
  unfolding fileno ◌>>=◌
  request-Delivers c request payload v = record {
    delivers = λ s fd _. (
      tt,
      record s { kernel = device.after_request request payload s.kernel },
      rw fd (rw (device.answers request payload s.kernel v) refl),
      fd,
      device.hears request payload s.kernel v,
    );
  }

  pub reset-Delivers :
      (c : Bool) → Delivers n heard c (linux_backend os unfinished).reset (reset_device ∷ [])
  unfolding linux_backend Device.reset
  reset-Delivers c = rw request_reset at (request-Delivers c ioc_reset [] (rw request_reset tt))

  clear_fault-Delivers :
      (c : Bool) → Delivers n heard c (linux_backend os unfinished).clear_fault (clear_fault ∷ [])
  unfolding linux_backend Device.clear_fault
  clear_fault-Delivers c =
      rw request_clear_fault at (request-Delivers c ioc_clear_fault [] (rw request_clear_fault tt))

  set_fault-Delivers :
      (c : Bool) (fault_type : String) (t r d p : ℕ)
      → fault_number fault_type ≡ some t
      → t < 2 ^ 32
      → r < 2 ^ 32
      → d < 2 ^ 32
      → p < 2 ^ 32
      → IsAcceptable (configure t r d p)
      → Delivers n heard c
          ((linux_backend os unfinished).set_fault (record {
            fault_type = fault_type;
            repeat = pos r;
            delay_ms = pos d;
            partial_read_bytes = pos p;
          }))
          (configure t r d p ∷ [])
  unfolding linux_backend set_fault
  set_fault-Delivers c fault_type t r d p e ht hr hd hp v =
      let (payload, packed, _, fields) =
        fault_payload-payload_fields fault_type t r d p e ht hr hd hp in
      let told : request_message ioc_set_fault payload ≡ configure t r d p =
        request_set_fault payload ∙ ap configured fields in
      record {
        delivers = λ s fd k.
            let (a, s', e, fd', h) =
              (request-Delivers c ioc_set_fault payload (rw told v)).delivers s fd k in
            (
              a,
              s',
              >>=-ok _ _ s {a = payload} {w' = s} (ap (λ r. (r, s)) packed) ∙ e,
              fd',
              h ∙ ap (λ m. heard s.kernel ++ (m ∷ [])) told,
            );
      }

  write-Delivers :
      (content : List ℕ)
      → Delivers n heard true ((linux_backend os unfinished).write content) (map byte content)
  unfolding linux_backend
  write-Delivers content = record {
    delivers = λ s fd k.
        let (s', e, fd', h) =
          write-sent os n byte heard (IsConnected os n heard) device.accepts content s.kernel k in
        (
          tt,
          s',
          ap
                (λ f. finished os unfinished (
                  Device.write os (suc (length content)) content
                    (record { kernel = s.kernel; fd = f })))
                fd
              ∙ ap (finished os unfinished) e,
          fd',
          h,
        );
  }

  -- The operation of the backend for an event that the device accepts tells it what the event says.
  pub perform-Delivers :
      (c : Bool) (a : EventAction)
      → IsValidAction a
      → Fits c a
      → Delivers n heard c (perform (linux_backend os unfinished) a) (messages a)
  unfolding fault_number
  perform-Delivers c clear _ _ = clear_fault-Delivers c
  perform-Delivers c reset _ _ = reset-Delivers c
  perform-Delivers c (write text) _ f = rw f (write-Delivers (encode_utf8 text))
  perform-Delivers c (eio r) v _ =
      set_fault-Delivers c "eio" 1 r 0 0 refl (omega arith) (omega arith) (omega arith)
        (omega arith) (inl (refl, v.0, v.1))
  perform-Delivers c (delay d) v f =
      set_fault-Delivers c "delay" 2 0 d 0 refl (omega arith) (omega arith) (omega arith)
        (omega arith) (inr (inl (refl, f.0, f.1)))
  perform-Delivers c disconnect _ _ =
      set_fault-Delivers c "disconnect" 3 0 0 0 refl (omega arith) (omega arith) (omega arith)
        (omega arith) (inr (inr (inl refl)))
  perform-Delivers c (partial_read p) v _ =
      set_fault-Delivers c "partial-read" 4 0 0 p refl (omega arith) (omega arith) (omega arith)
        (omega arith) (inr (inr (inr (refl, v.0, v.1))))
