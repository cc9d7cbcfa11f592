-- ===== src/Bytes.antt =====
-- Python's `bytes` and `bytearray` as lists of numbers below 256, the `struct` formats that the code
-- uses (big-endian, without padding), and `zlib.crc32`.
pub mod Slices
pub mod Widths
mod Tests
use Prim.Native.Nat.{bit_xor}
use cachy_db.Base.{
  ℕ, zero, suc, ◌+◌, ◌*◌, ◌/◌, ◌%◌, ◌^◌, List, [], ◌∷◌, ◌++◌, Result, ok, raise, struct_error, ltb,
  ◌==◌, if◌then◌else◌, length, take, drop,
}

abbrev pub Bytes : Type 0
Bytes = List ℕ

-- `data[off : off + n]`
unfoldable pub read : ℕ → ℕ → Bytes → Bytes
read off n l = take n (drop off l)

-- `data[off : off + len(p)] = p`
unfoldable pub write : ℕ → Bytes → Bytes → Bytes
write zero p l = p ++ drop (length p) l
write (suc off) p [] = p
write (suc off) p (x ∷ l) = x ∷ write off p l

-- `bytes(n)`
unfoldable pub zeros : ℕ → Bytes
zeros zero = []
zeros (suc n) = 0 ∷ zeros n

-- Format H, I and Q: an unsigned number of 2, 4 and 8 bytes, with a struct.error out of range.
abbrev pub bytes2 : ℕ → Bytes
bytes2 n = (n / 256) % 256 ∷ n % 256 ∷ []

abbrev pub bytes4 : ℕ → Bytes
bytes4 n = (n / 16777216) % 256 ∷ (n / 65536) % 256 ∷ (n / 256) % 256 ∷ n % 256 ∷ []

abbrev pub bytes8 : ℕ → Bytes
bytes8 n = bytes4 (n / 4294967296) ++ bytes4 (n % 4294967296)

unfoldable pub pack_h : ℕ → Result Bytes
pack_h n = if ltb n 65536 then ok (bytes2 n) else raise struct_error

unfoldable pub pack_i : ℕ → Result Bytes
pack_i n = if ltb n 4294967296 then ok (bytes4 n) else raise struct_error

unfoldable pub pack_q : ℕ → Result Bytes
pack_q n = if ltb n 18446744073709551616 then ok (bytes8 n) else raise struct_error

-- `int.from_bytes(b, byteorder="big")`, and the unpacking of H, I and Q
unfoldable pub from_big_at : ℕ → Bytes → ℕ
from_big_at acc [] = acc
from_big_at acc (b ∷ bs) = from_big_at (acc * 256 + b) bs

unfoldable pub from_big : Bytes → ℕ
unfolding from_big_at
from_big bs = from_big_at 0 bs

-- One bit, and one byte, of the CRC with the reversed polynomial.
unfoldable pub crc_bit : ℕ → ℕ
crc_bit c = if c % 2 == 1 then bit_xor (c / 2) 0xEDB88320 else c / 2

unfoldable pub crc_byte : ℕ → ℕ → ℕ
unfolding crc_bit
crc_byte c b =
    crc_bit (crc_bit (crc_bit (crc_bit (crc_bit (crc_bit (crc_bit (crc_bit (bit_xor c b))))))))

unfoldable pub crc_loop : ℕ → Bytes → ℕ
crc_loop c [] = c
crc_loop c (b ∷ bs) = crc_loop (crc_byte c b) bs

-- `zlib.crc32(data) & 0xFFFFFFFF`
unfoldable pub crc32 : Bytes → ℕ
unfolding crc_loop crc_byte
crc32 data' = bit_xor (crc_loop 0xFFFFFFFF data') 0xFFFFFFFF % 2 ^ 32
