-- ===== src/Bytes/Tests.antt =====
-- The check value of CRC-32.
use cachy_db.Base.{◌≡◌, refl, [], ◌∷◌}
use cachy_db.Bytes.{crc32}

crc32_check : crc32 (0x31 ∷ 0x32 ∷ 0x33 ∷ 0x34 ∷ 0x35 ∷ 0x36 ∷ 0x37 ∷ 0x38 ∷ 0x39 ∷ []) ≡ 0xCBF43926
unfolding crc32
crc32_check = refl
