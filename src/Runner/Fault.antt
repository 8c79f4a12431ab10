-- ===== src/Runner/Fault.antt =====
-- `_ioctl_number`, the numbers made by it, `_FAULT_TYPES`, and the packing of a fault configuration
-- by `struct.Struct("=IIII")` on a little-endian machine.
pub mod Payload
use Prim.Native.Nat.{bit_or}
use vdev_lab.Base.{
  ℕ, zero, suc, ◌+◌, ◌*◌, ◌/◌, ◌%◌, ◌^◌, ◌<>◌, String, ◌==◌, List, [], ◌∷◌, ◌++◌, Option, none,
  some, ltb, if◌then◌else◌,
}
use vdev_lab.Base.Int.{ℤ, pos, negsuc}
use vdev_lab.Base.Result.{Result, ok, err, foreign, runner_error, ◌>>=◌}
use vdev_lab.Runner.Records.{FaultConfiguration}

abbrev pub ioc_nrshift : ℕ
ioc_nrshift = 0

abbrev pub ioc_typeshift : ℕ
ioc_typeshift = ioc_nrshift + 8

abbrev pub ioc_sizeshift : ℕ
ioc_sizeshift = ioc_typeshift + 8

abbrev pub ioc_dirshift : ℕ
ioc_dirshift = ioc_sizeshift + 14

-- A shift to the left by `k` is a product with 2 ^ k; 86 is `ord("V")`.
unfoldable pub ioctl_number : ℕ → ℕ → ℕ → ℕ
ioctl_number direction number size =
    bit_or
      (bit_or (bit_or (direction * 2 ^ ioc_dirshift) (86 * 2 ^ ioc_typeshift))
        (number * 2 ^ ioc_nrshift))
      (size * 2 ^ ioc_sizeshift)

abbrev pub fault_struct_size : ℕ
fault_struct_size = 16

unfoldable pub ioc_set_fault : ℕ
ioc_set_fault = ioctl_number 1 1 fault_struct_size

unfoldable pub ioc_clear_fault : ℕ
ioc_clear_fault = ioctl_number 0 3 0

unfoldable pub ioc_reset : ℕ
ioc_reset = ioctl_number 0 4 0

-- `_FAULT_TYPES`
unfoldable pub fault_number : String → Option ℕ
fault_number fault_type =
    if fault_type == "eio"
    then some 1
    else if fault_type == "delay"
    then some 2
    else if fault_type == "disconnect"
    then some 3
    else if fault_type == "partial-read"
    then some 4
    else none

-- `n` in so many bytes, the lowest first.
unfoldable pub little_endian : ℕ → ℕ → List ℕ
little_endian zero n = []
little_endian (suc width) n = (n % 256) ∷ little_endian width (n / 256)

-- The format `I`: an unsigned integer of 32 bits.
unfoldable pub pack_unsigned : ℤ → Result (List ℕ)
pack_unsigned (pos n) =
    if ltb n (2 ^ 32) then ok (little_endian 4 n) else err (foreign "error" "argument out of range")
pack_unsigned (negsuc n) = err (foreign "error" "argument out of range")

unfoldable pub pack_fault : ℕ → FaultConfiguration → Result (List ℕ)
pack_fault fault_type configuration = do
  type_bytes ← pack_unsigned (pos fault_type)
  repeat_bytes ← pack_unsigned configuration.repeat
  delay_bytes ← pack_unsigned configuration.delay_ms
  partial_bytes ← pack_unsigned configuration.partial_read_bytes
  ok (type_bytes ++ (repeat_bytes ++ (delay_bytes ++ partial_bytes)))

-- The payload of `set_fault`: the look-up of the type, and the packing.
unfoldable pub fault_payload : FaultConfiguration → Result (List ℕ)
fault_payload configuration = elim (fault_number configuration.fault_type) [
  | none ↦ err (runner_error ("unsupported fault type: " <> configuration.fault_type))
  | some n ↦ pack_fault n configuration
]
