-- ===== src/Runner/Fault/Payload.antt =====
-- The payload of a fault configuration: four numbers of four bytes that read back as they are.
use vdev_lab.Base.{
  ℕ, ◌+◌, ◌*◌, ◌^◌, ◌<◌, String, ◌≡◌, refl, List, [], ◌∷◌, ◌++◌, length, some, arith, lt→ltb, take,
  drop,
}
use vdev_lab.Base.Int.{pos}
use vdev_lab.Base.Result.{ok, ◌>>=◌}
use vdev_lab.Runner.Fault.{fault_number, little_endian, pack_unsigned, pack_fault, fault_payload}

-- The number that the bytes stand for, the lowest first.
pub from_little_endian : List ℕ → ℕ
from_little_endian [] = 0
from_little_endian (b ∷ bs) = b + 256 * from_little_endian bs

-- The four fields of the structure as the kernel reads them.
abbrev pub payload_fields : List ℕ → ℕ × ℕ × ℕ × ℕ
payload_fields bytes = (
  from_little_endian (take 4 bytes),
  from_little_endian (take 4 (drop 4 bytes)),
  from_little_endian (take 4 (drop 8 bytes)),
  from_little_endian (take 4 (drop 12 bytes)),
)

word_back : (n : ℕ) → n < 2 ^ 32 → from_little_endian (little_endian 4 n) ≡ n
unfolding little_endian from_little_endian
word_back n h = omega arith

pack_unsigned-pos : (n : ℕ) → n < 2 ^ 32 → pack_unsigned (pos n) ≡ ok (little_endian 4 n)
unfolding pack_unsigned
pack_unsigned-pos n h = rw (lt→ltb n (2 ^ 32) h)

abbrev words : ℕ → ℕ → ℕ → ℕ → List ℕ
words t r d p = little_endian 4 t ++ (little_endian 4 r ++ (little_endian 4 d ++ little_endian 4 p))

payload_fields-words :
    (t r d p : ℕ)
    → t < 2 ^ 32
    → r < 2 ^ 32
    → d < 2 ^ 32
    → p < 2 ^ 32
    → payload_fields (words t r d p) ≡ (t, r, d, p)
unfolding little_endian from_little_endian
payload_fields-words t r d p h k l m = ground arith

length-words : (t r d p : ℕ) → length (words t r d p) ≡ 16
unfolding little_endian
length-words t r d p = refl

-- A configuration of a known type whose three numbers fit 32 bits is packed into 16 bytes, and the
-- bytes read back as the number of the type and the three numbers, in the order of the structure.
pub fault_payload-payload_fields :
    (fault_type : String) (t r d p : ℕ)
    → fault_number fault_type ≡ some t
    → t < 2 ^ 32
    → r < 2 ^ 32
    → d < 2 ^ 32
    → p < 2 ^ 32
    → (bytes : List ℕ) × (fault_payload (record {
      fault_type = fault_type;
      repeat = pos r;
      delay_ms = pos d;
      partial_read_bytes = pos p;
    })
        ≡ ok bytes)
      × (length bytes ≡ 16)
      × (payload_fields bytes ≡ (t, r, d, p))
unfolding fault_payload pack_fault ◌>>=◌
fault_payload-payload_fields fault_type t r d p e ht hr hd hp = (
  words t r d p,
  rw (e, fault_payload)
      (rw (pack_unsigned-pos t ht)
        (rw (pack_unsigned-pos r hr) (rw (pack_unsigned-pos d hd) (rw (pack_unsigned-pos p hp))))),
  length-words t r d p,
  payload_fields-words t r d p ht hr hd hp,
)
