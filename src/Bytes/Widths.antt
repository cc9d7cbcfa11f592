-- ===== src/Bytes/Widths.antt =====
-- The numbers of 2, 4 and 8 bytes: read back what was packed.
use cachy_db.Base.{◌+◌, ◌%◌, ◌*◌, ◌/◌, ℕ, ◌<◌, ◌≡◌, arith, ok}
use cachy_db.Bytes.{
  Bytes, bytes2, bytes4, bytes8, from_big, from_big_at, pack_h, pack_i, pack_q, crc32,
}

pub from_big-bytes2 : (n : ℕ) → n < 65536 → from_big (bytes2 n) ≡ n
unfolding from_big from_big_at
from_big-bytes2 n h = omega arith

pub from_big-bytes4 : (n : ℕ) → n < 4294967296 → from_big (bytes4 n) ≡ n
unfolding from_big from_big_at
from_big-bytes4 n h = omega arith

pub pack_h_lem : (n : ℕ) → n < 65536 → pack_h n ≡ ok (bytes2 n)
unfolding pack_h
pack_h_lem n h = ground arith

pub pack_i_lem : (n : ℕ) → n < 4294967296 → pack_i n ≡ ok (bytes4 n)
unfolding pack_i
pack_i_lem n h = ground arith

pub pack_q_lem : (n : ℕ) → n < 18446744073709551616 → pack_q n ≡ ok (bytes8 n)
unfolding pack_q
pack_q_lem n h = ground arith

pub crc32_bound : (b : Bytes) → crc32 b < 4294967296
unfolding crc32
crc32_bound b = omega arith

from_big_at-bytes4 :
    (acc n : ℕ) → n < 4294967296 → from_big_at acc (bytes4 n) ≡ acc * 4294967296 + n
unfolding from_big_at
from_big_at-bytes4 acc n h = omega arith

pub from_big-bytes8 : (n : ℕ) → n < 18446744073709551616 → from_big (bytes8 n) ≡ n
unfolding from_big from_big_at
from_big-bytes8 n h =
    let a = n / 4294967296 in
    let b = n % 4294967296 in
    let high = from_big_at-bytes4 0 a (omega arith) in
    let low = from_big_at-bytes4 (from_big_at 0 (bytes4 a)) b (omega arith) in
    omega (arith, high, low)
