-- ===== src/Tests/Stop.antt =====
-- The theorem on a closed `LinuxDeviceBackend` of runner.py, for a device that takes all bytes.
use vdev_lab.Base.{map, ℕ, ◌≡◌, refl, true, List, [], ◌∷◌, ◌++◌, none, some, length}
use vdev_lab.Base.Result.{ok}
use vdev_lab.Runner.Device.{SystemCalls, Opened, written, close}
use vdev_lab.Runner.Device.Closed.{
  Operation, call_write, call_close, call_reset, outcome_closed, calls, close-outcome_closed,
}

abbrev pair_device : SystemCalls (List ℕ)
pair_device = record {
  has_ioctl = true;
  open_file = λ path k. (ok 3, k);
  close_file = λ n k. (ok tt, k);
  ioctl = λ n request payload k. (ok tt, k);
  write_file = λ n bytes k. (written (length bytes), k ++ bytes);
}

abbrev opened_pair : Opened (List ℕ)
opened_pair = record { kernel = 1 ∷ []; fd = some 3 }

close-pair : close pair_device opened_pair ≡ (ok tt, record { kernel = 1 ∷ []; fd = none })
unfolding close
close-pair = refl

abbrev late_calls : List Operation
late_calls = call_write (7 ∷ []) ∷ call_close ∷ call_reset ∷ []

close-outcome_closed_example :
    calls pair_device 9 late_calls (record { kernel = 1 ∷ []; fd = none })
    ≡ (map outcome_closed late_calls, record { kernel = 1 ∷ []; fd = none })
close-outcome_closed_example = close-outcome_closed pair_device 9 opened_pair late_calls close-pair
