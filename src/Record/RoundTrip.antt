-- ===== src/Record/RoundTrip.antt =====
-- A record that `pack_record` returns is read back by `unpack_record` with the same key.
use cachy_db.Base.{
  ℕ, ◌+◌, ◌≤◌, ◌<◌, ◌≡◌, refl, ap, ◌∙◌, Bool-cases, true, false, ◌++◌, Result-cases, ok, ltb, ◌==◌,
  length, length-append, drop, Str, arith, inl, inr,
}
use cachy_db.Bytes.{Bytes, read, from_big, bytes4, crc32}
use cachy_db.Bytes.Slices.{read-append_skip, read-append_here, drop-length-append}
use cachy_db.Bytes.Widths.{from_big-bytes4, pack_i_lem, crc32_bound}
use cachy_db.Utf8
use cachy_db.Utf8.RoundTrip.{decode-encode, encode-ascii}
use cachy_db.Json.{Json}
use cachy_db.Record.{
  Cipher, magic_value, validate_encryption_key, validate_key_length, validate_value_length,
  calculate_checksum, pack_fields, unpack_fields, pack_record, open_value, unpack_record,
}

-- The bytes of a record.
abbrev layout : Bytes → Bytes → Bytes
layout k v =
    let n = length k in
    let m = length v in
    let total = 4 + 4 + n + 4 + m + 4 + 4 in
    bytes4 total
    ++ (bytes4 magic_value
        ++ (bytes4 n
            ++ (k
                ++ (bytes4 m
                    ++ (v
                        ++ bytes4 (calculate_checksum (bytes4 total) (bytes4 n) k (bytes4 m) v))))))

-- The sizes that `pack_record` lets through.
record Sized (k v : Bytes) : Type 0 where
  low : 1 ≤ length k
  high : length k ≤ 4096
  value : length v ≤ 16777216

pack_fields_lem : (k v : Bytes) → Sized k v → pack_fields k v ≡ ok (layout k v)
unfolding pack_fields validate_key_length validate_value_length calculate_checksum
pack_fields_lem k v s =
    let lo = s.low in
    let hi = s.high in
    let va = s.value in
    let total = 4 + 4 + length k + 4 + length v + 4 + 4 in
    let a : ltb (length k) 1 ≡ false = ground (arith, lo) in
    let b : ltb 4096 (length k) ≡ false = ground (arith, hi) in
    let c : ltb (length v) 0 ≡ false = ground arith in
    let d : ltb 16777216 (length v) ≡ false = ground (arith, va) in
    let e : ltb 4294967295 total ≡ false = ground (arith, hi, va) in
    let body = bytes4 total ++ (bytes4 (length k) ++ (k ++ (bytes4 (length v) ++ v))) in
    rw
      (
        a,
        b,
        c,
        d,
        pack_i_lem (length k) (omega arith),
        pack_i_lem (length v) (omega arith),
        e,
        pack_i_lem total (omega arith),
        pack_i_lem (crc32 body) (crc32_bound body),
        pack_i_lem magic_value (omega arith),
      )
      refl

-- What `pack_record` lets through is sized.
pack_fields-Sized : (k v b : Bytes) → pack_fields k v ≡ ok b → Sized k v
unfolding pack_fields validate_key_length validate_value_length
pack_fields-Sized k v b h = elim (Bool-cases (ltb (length k) 1)) [
  | inl x ↦ absurd (ground (arith, h, x))
  | inr lo ↦ elim (Bool-cases (ltb 4096 (length k))) [
    | inl x ↦ absurd (ground (arith, h, lo, x))
    | inr hi ↦ elim (Bool-cases (ltb 16777216 (length v))) [
      | inl x ↦ absurd (ground (arith, h, lo, hi, x))
      | inr va ↦ record {
        low = ground (arith, lo);
        high = ground (arith, hi);
        value = ground (arith, va);
      }
    ]
  ]
]

read-after : (p l : Bytes) (off a n : ℕ) → off ≡ length p + a → read off n (p ++ l) ≡ read a n l
read-after p l off a n e = ap (λ i. read i n (p ++ l)) e ∙ read-append_skip p l a n

-- What the reads of `unpack_record` find in a record.
record Reads (b k v : Bytes) : Type 0 where
  size : length b ≡ 4 + 4 + length k + 4 + length v + 4 + 4
  total : read 0 4 b ≡ bytes4 (4 + 4 + length k + 4 + length v + 4 + 4)
  magic : read 4 4 b ≡ bytes4 magic_value
  key_length : read 8 4 b ≡ bytes4 (length k)
  key : read 12 (length k) b ≡ k
  value_length : read (12 + length k) 4 b ≡ bytes4 (length v)
  value : read (12 + length k + 4) (length v) b ≡ v
  checksum :
      read (12 + length k + 4 + length v) 4 b
      ≡ bytes4 (
          calculate_checksum
            (bytes4 (4 + 4 + length k + 4 + length v + 4 + 4))
            (bytes4 (length k))
            k
            (bytes4 (length v))
            v)

layout-Reads : (k v : Bytes) → Reads (layout k v) k v
unfolding read
layout-Reads k v =
    let n = length k in
    let m = length v in
    let total = 4 + 4 + n + 4 + m + 4 + 4 in
    let check = bytes4 (calculate_checksum (bytes4 total) (bytes4 n) k (bytes4 m) v) in
    let head = bytes4 total ++ (bytes4 magic_value ++ (bytes4 n ++ k)) in
    let tail = bytes4 m ++ (v ++ check) in
    let at_value : read 4 m tail ≡ v = read-append_here v check in
    let at_check : read (4 + m) 4 tail ≡ check =
      read-after (bytes4 m) (v ++ check) (4 + m) m 4 refl
      ∙ read-after v check m 0 4 (omega arith) in
    record {
      size = omega (arith, length-append k tail, length-append v check);
      total = refl;
      magic = refl;
      key_length = refl;
      key = read-append_here k tail;
      value_length = read-after head tail (12 + n) 0 4 (omega arith);
      value = read-after head tail (12 + n + 4) 4 m (omega arith) ∙ at_value;
      checksum = read-after head tail (12 + n + 4 + m) (4 + m) 4 (omega arith) ∙ at_check;
    }

calculate_checksum_bound : (a b c d e : Bytes) → calculate_checksum a b c d e < 4294967296
unfolding calculate_checksum
calculate_checksum_bound a b c d e = crc32_bound (a ++ (b ++ (c ++ (d ++ e))))

unpack_fields_lem :
    (b k v : Bytes) (key : Str)
    → Reads b k v
    → Sized k v
    → Utf8.decode k ≡ ok key
    → unpack_fields b
      ≡ ok (record {
        key = key;
        encrypted_value = v;
        expected_end = 12 + length k + 4 + length v + 4;
        record_length = 4 + 4 + length k + 4 + length v + 4 + 4;
      })
unfolding unpack_fields validate_key_length validate_value_length
unpack_fields_lem b k v key r s e =
    let lo = s.low in
    let hi = s.high in
    let va = s.value in
    let size = r.size in
    let total = 4 + 4 + length k + 4 + length v + 4 + 4 in
    let t : from_big (bytes4 total) ≡ total = from_big-bytes4 total (omega arith) in
    let kl = from_big-bytes4 (length k) (omega arith) in
    let vl = from_big-bytes4 (length v) (omega arith) in
    let mv = from_big-bytes4 magic_value (omega arith) in
    let cs = calculate_checksum (bytes4 total) (bytes4 (length k)) k (bytes4 (length v)) v in
    let c0 : ltb (length b) 20 ≡ false = ground (arith, size) in
    let c1 : ltb 268435456 total ≡ false = ground (arith, hi, va) in
    let c2 : ltb total 20 ≡ false = ground (arith, lo) in
    let c3 : ltb (length k) 1 ≡ false = ground (arith, lo) in
    let c4 : ltb 4096 (length k) ≡ false = ground (arith, hi) in
    let c5 : ltb (length b) (12 + length k) ≡ false = ground (arith, size) in
    let c6 : ltb (length b) (12 + length k + 4) ≡ false = ground (arith, size) in
    let c7 : ltb (length v) 0 ≡ false = ground arith in
    let c8 : ltb 16777216 (length v) ≡ false = ground (arith, va) in
    let c9 : ltb (length b) (12 + length k + 4 + length v) ≡ false = ground (arith, size) in
    let c10 : ltb (length b) (12 + length k + 4 + length v + 4) ≡ false = ground (arith, size) in
    let ck =
      from_big-bytes4 cs
        (calculate_checksum_bound (bytes4 total) (bytes4 (length k)) k (bytes4 (length v)) v) in
    let same : (cs == cs) ≡ true = ground arith in
    rw
      (
        c0, r.total, t, c1, c2, r.magic, mv, r.key_length, kl, c3, c4, c5, r.key, e, c6,
        r.value_length, vl, c7, c8, c9, r.value, c10, r.checksum, ck, same,
      )
      refl

module _ {V : Type 0} (cipher : Cipher) ⦃json : Json V⦄ where
  -- The decryption of what was encrypted.
  open_value_lem :
      (b encryption_key nonce text k v : Bytes) (key : Str) (value : V)
      → length nonce ≡ 12
      → v ≡ nonce ++ cipher.encrypt encryption_key nonce text
      → Utf8.decode text ≡ ok text
      → json.loads text ≡ ok value
      → length b ≡ 4 + 4 + length k + 4 + length v + 4 + 4
      → open_value cipher b encryption_key (record {
        key = key;
        encrypted_value = v;
        expected_end = 12 + length k + 4 + length v + 4;
        record_length = 4 + 4 + length k + 4 + length v + 4 + 4;
      })
        ≡ ok (key, value)
  unfolding open_value read
  open_value_lem b encryption_key nonce text k v key value ln e dec load size =
      let c = cipher.encrypt encryption_key nonce text in
      let lv : length v ≡ 12 + (length text + 16) =
        ap length e
        ∙ omega
            (arith, length-append nonce c, cipher.length-encrypt encryption_key nonce text, ln) in
      let c1 : ltb (length v) 28 ≡ false = ground (arith, lv) in
      let first : read 0 12 v ≡ nonce = rw (← ln, e) (read-append_here nonce c) in
      let rest : drop 12 v ≡ c = rw (← ln, e) (drop-length-append nonce c) in
      let end : (12 + length k + 4 + length v + 4 == 4 + 4 + length k + 4 + length v + 4 + 4)
          ≡ true =
        ground arith in
      let all : (length b == 4 + 4 + length k + 4 + length v + 4 + 4) ≡ true =
        ground (arith, size) in
      rw (c1, first, rest, cipher.decrypt-encrypt encryption_key nonce text, dec, load, end, all)
        refl

  -- A record packed with a key and a nonce of 12 bytes is unpacked with that key: to the key and the
  -- value, whatever the cipher does beyond its contract.
  pub unpack_record-pack_record_encrypted :
      (key : Str) (value : V) (encryption_key nonce packed_record : Bytes)
      → length nonce ≡ 12
      → pack_record cipher key value encryption_key nonce ≡ ok packed_record
      → unpack_record {V = V} cipher packed_record encryption_key ≡ ok (key, value)
  unfolding pack_record unpack_record validate_encryption_key
  unpack_record-pack_record_encrypted key value encryption_key nonce packed_record ln h =
      elim (Bool-cases (length encryption_key == 32)) [
        | inr bad ↦ absurd (ground (arith, h, bad))
        | inl good ↦ elim (Result-cases (Utf8.encode key)) [
          | inr (x, e) ↦ absurd (ground (arith, h, good, e))
          | inl (k, e) ↦ elim (Result-cases (json.dumps value)) [
            | inr (x, d) ↦ absurd (ground (arith, h, good, e, d))
            | inl (text, d) ↦
                let ascii = encode-ascii text (json.dumps-ascii value text d) in
                let v = nonce ++ cipher.encrypt encryption_key nonce text in
                let fields : pack_fields k v ≡ ok packed_record =
                  ground (arith, h, good, e, d, ascii) in
                let sized = pack_fields-Sized k v packed_record fields in
                let b_eq : layout k v ≡ packed_record = cc (pack_fields_lem k v sized, fields) in
                let reads = layout-Reads k v in
                let unpacked =
                  unpack_fields_lem (layout k v) k v key reads sized (decode-encode key k e) in
                let opened =
                  open_value_lem (layout k v) encryption_key nonce text k v key value ln refl
                    (decode-encode text text ascii) (json.loads-dumps value text d) reads.size in
                rw (← b_eq, good, unpacked) opened
          ]
        ]
      ]
