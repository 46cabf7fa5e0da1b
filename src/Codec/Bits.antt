-- ===== src/Codec/Bits.antt =====
-- `BitWriter` and `BitReader` of crates/temnion-codec/src/lib.rs.
use temnion.Prelude.{
  ℕ, zero, suc, ◌+◌, ◌-◌, ◌%◌, List, [], ◌∷◌, ◌++◌, Option, none, some, Exec, ◌>>=◌, pure, ok, err,
  get_elem?, if◌then◌else◌, ltb, ◌==◌, as_u8, bit_or, shift_left, shift_right,
}
use temnion.Codec.{CodecError, invalid_data, end_of_bitstream}

pub record BitWriter : Type 0 where
  pub buf : List ℕ
  pub bit_buf : ℕ
  pub bit_count : ℕ

-- `BitWriter::new`
abbrev pub writing : List ℕ → BitWriter
writing buf = record { buf = buf; bit_buf = 0; bit_count = 0 }

unfoldable pub write_bit : ℕ → BitWriter → BitWriter
write_bit bit w =
    let bit_buf = bit_or 64 w.bit_buf (shift_left 64 (bit % 2) w.bit_count) in
    let bit_count = w.bit_count + 1 in
    if bit_count == 8
    then writing (w.buf ++ as_u8 bit_buf ∷ [])
    else record { buf = w.buf; bit_buf = bit_buf; bit_count = bit_count }

-- The bits from `i` on, `count` of them.
unfoldable pub write_from : ℕ → ℕ → ℕ → BitWriter → BitWriter
write_from val i zero w = w
write_from val i (suc count) w = write_from val (i + 1) count (write_bit (shift_right val i % 2) w)

unfoldable pub write_bits : ℕ → ℕ → BitWriter → BitWriter
write_bits val count w = write_from val 0 count w

unfoldable pub flush : BitWriter → BitWriter
flush w = if ltb 0 w.bit_count then writing (w.buf ++ as_u8 w.bit_buf ∷ []) else w

pub record BitReader : Type 0 where
  pub sub_slice : List ℕ
  pub byte_idx : ℕ
  pub bit_buf : ℕ
  pub bit_count : ℕ

-- `BitReader::new`
abbrev pub reading : List ℕ → BitReader
reading sub_slice = record { sub_slice = sub_slice; byte_idx = 0; bit_buf = 0; bit_count = 0 }

-- The lowest bit of a buffer that is not empty.
unfoldable pub take_bit : Exec BitReader CodecError ℕ
take_bit r = (
  ok (r.bit_buf % 2),
  record r { bit_buf = shift_right r.bit_buf 1; bit_count = r.bit_count - 1 },
)

unfoldable pub load : Option ℕ → Exec BitReader CodecError ℕ
load none r = (err (invalid_data end_of_bitstream), r)
load (some b) r = take_bit (record r { byte_idx = r.byte_idx + 1; bit_buf = b; bit_count = 8 })

unfoldable pub read_bit : Exec BitReader CodecError ℕ
read_bit r = if r.bit_count == 0 then load (get_elem? r.sub_slice r.byte_idx) r else take_bit r

unfoldable pub read_from : ℕ → ℕ → ℕ → Exec BitReader CodecError ℕ
read_from res i zero = pure res
read_from res i (suc count) =
    read_bit >>= λ b. read_from (bit_or 64 res (shift_left 64 b i)) (i + 1) count

unfoldable pub read_bits : ℕ → Exec BitReader CodecError ℕ
read_bits count = read_from 0 0 count
