-- ===== src/Router/Packing/RoundTrip.antt =====
-- A packed record is unpacked to its key and its value.
use cachy_db.Base.{
  ◌+◌, ◌<◌, ◌≡◌, sym, ap, ◌∙◌, subst, false, [], ◌++◌, Result-cases, Error, ok, raise, ltb, length,
  length-append, drop, eq_str, eq_str_iff, Str, arith, Bool-cases, inl, inr,
}
use cachy_db.Bytes.{Bytes, read, from_big, pack_h, bytes2}
use cachy_db.Bytes.Slices.{
  read-append_inside, read-append_skip, read-append_here, drop-length-append, drop-drop,
}
use cachy_db.Bytes.Widths.{from_big-bytes2, pack_h_lem}
use cachy_db.Utf8
use cachy_db.Utf8.RoundTrip.{decode-encode, encode-ascii}
use cachy_db.Json.{Json, null_text}
use cachy_db.Router.Packing.{
  value_bytes, value_of, pack_record, unpack_record, is_deletion, null_bytes,
}

module _ {V : Type 0} ⦃json : Json V⦄ where
  -- What `pack_record` puts together when it succeeds.
  pub record Packed (key : Str) (value : V) (payload : Bytes) : Type 0 where
    pub k_bytes : Bytes
    pub text : Str
    pub encoded : Utf8.encode key ≡ ok k_bytes
    pub short : length k_bytes < 65536
    pub dumped : json.dumps value ≡ ok text
    pub layout : payload ≡ bytes2 (length k_bytes) ++ (k_bytes ++ text)

  value_bytes-dumps :
      (value : V) (text : Str) → json.dumps value ≡ ok text → value_bytes value ≡ ok text
  unfolding value_bytes
  value_bytes-dumps value text h = rw h (encode-ascii text (json.dumps-ascii value text h))

  value_of-dumps : (value : V) (text : Str) → json.dumps value ≡ ok text → value_of text ≡ ok value
  unfolding value_of
  value_of-dumps value text h =
      let d = decode-encode text text (encode-ascii text (json.dumps-ascii value text h)) in
      rw d (json.loads-dumps value text h)

  value_bytes-raise :
      (value : V) (e : Error) → json.dumps value ≡ raise e → value_bytes value ≡ raise e
  unfolding value_bytes
  value_bytes-raise value e h = rw h

  not_packed :
      (key : Str) (value : V) (payload k : Bytes) (e : Error)
      → Utf8.encode key ≡ ok k
      → value_bytes value ≡ raise e
      → pack_record key value ≡ ok payload
      → ⊥
  unfolding pack_record
  not_packed key value payload k e enc v h = elim (Bool-cases (ltb 65535 (length k))) [
    | inl big ↦ ground (arith, h, enc, big)
    | inr small ↦ ground (arith, h, enc, small, v)
  ]

  laid_out :
      (key : Str) (value : V) (payload k t : Bytes)
      → Utf8.encode key ≡ ok k
      → ltb 65535 (length k) ≡ false
      → value_bytes value ≡ ok t
      → pack_h (length k) ≡ ok (bytes2 (length k))
      → pack_record key value ≡ ok payload
      → payload ≡ bytes2 (length k) ++ (k ++ t)
  unfolding pack_record
  laid_out key value payload k t enc small v p h = ground (arith, h, enc, small, v, p)

  pub pack_record-Packed :
      (key : Str) (value : V) (payload : Bytes)
      → pack_record key value ≡ ok payload
      → Packed key value payload
  unfolding pack_record
  pack_record-Packed key value payload h = elim (Result-cases (Utf8.encode key)) [
    | inr (e, enc) ↦ absurd (ground (arith, h, enc))
    | inl (k, enc) ↦ elim (Bool-cases (ltb 65535 (length k))) [
      | inl big ↦ absurd (ground (arith, h, enc, big))
      | inr small ↦ elim (Result-cases (json.dumps value)) [
        | inr (e, d) ↦
            let v = value_bytes-raise value e d in absurd (not_packed key value payload k e enc v h)
        | inl (t, d) ↦
            let v = value_bytes-dumps value t d in
            let n : length k < 65536 = ground (arith, small) in
            let p = pack_h_lem (length k) n in
            record {
              k_bytes = k;
              text = t;
              encoded = enc;
              short = n;
              dumped = d;
              layout = laid_out key value payload k t enc small v p h;
            }
      ]
    ]
  ]

  pub Packed-fields :
      (key : Str) (value : V) (payload : Bytes)
      → (p : Packed key value payload)
      → (from_big (read 0 2 payload) ≡ length p.k_bytes)
        × (read 2 (length p.k_bytes) payload ≡ p.k_bytes)
        × (drop (2 + length p.k_bytes) payload ≡ p.text)
        × (length payload ≡ 2 + length p.k_bytes + length p.text)
        × (0 < length p.text)
  unfolding read
  Packed-fields key value payload p =
      let k = p.k_bytes in
      let t = p.text in
      let n = length k in
      let b = bytes2 n in
      let read_key : read 2 n (b ++ (k ++ t)) ≡ k =
        read-append_skip b (k ++ t) 0 n ∙ read-append_here k t in
      rw p.layout (
        ap from_big (read-append_inside b (k ++ t) 0 2 (omega arith) ∙ read-append_here b [])
            ∙ from_big-bytes2 n p.short,
        read_key,
        sym (drop-drop n 2 (b ++ (k ++ t))) ∙ drop-length-append k t,
        omega (arith, length-append k t),
        json.dumps_nonempty value t p.dumped,
      )

  -- A record that `_pack_record` returns is unpacked to the key and the value that were packed.
  pub unpack_record-pack_record :
      (key : Str) (value : V) (payload : Bytes)
      → pack_record key value ≡ ok payload
      → unpack_record payload ≡ ok (key, value)
  unfolding unpack_record
  unpack_record-pack_record key value payload h =
      let p = pack_record-Packed key value payload h in
      let (f, r, d, l, n) = Packed-fields key value payload p in
      let k = decode-encode key p.k_bytes p.encoded in
      let v = value_of-dumps value p.text p.dumped in
      let long : ltb (length payload) 2 ≡ false = ground (arith, l) in
      let enough : ltb (length payload) (2 + length p.k_bytes + 1) ≡ false = ground (arith, l, n) in
      rw (long, f, enough, r, k, d, v)

  -- A record that `_pack_record` returns: the flush takes it for a deletion just when the value is
  -- `None`.
  pub is_deletion-pack_record :
      (key : Str) (value : V) (payload k_bytes : Bytes)
      → pack_record key value ≡ ok payload
      → Utf8.encode key ≡ ok k_bytes
      → is_deletion (length k_bytes) payload ≡ json.is_null value
  unfolding is_deletion
  is_deletion-pack_record key value payload k_bytes h e =
      let p = pack_record-Packed key value payload h in
      let (f, r, d, l, n) = Packed-fields key value payload p in
      let same : p.k_bytes ≡ k_bytes = cc (p.encoded, e) in
      let text : drop (2 + length k_bytes) payload ≡ p.text =
        subst (λ k. drop (2 + length k) payload ≡ p.text) same d in
      rw text (elim (Bool-cases (json.is_null value)) [
        | inl null ↦
            let is : value ≡ json.null = (json.is_null_iff value).0 null in
            let t : p.text ≡ null_text = cc (p.dumped, json.dumps-null, is) in rw (null, t)
        | inr not_null ↦ elim (Bool-cases (eq_str p.text null_bytes)) [
          | inl eq ↦
              let t : p.text ≡ null_text = (eq_str_iff p.text null_bytes).0 eq in
              let v : ok value ≡ ok json.null =
                sym (json.loads-dumps value p.text p.dumped)
                ∙ (ap json.loads t ∙ json.loads-dumps json.null null_text json.dumps-null) in
              let w : value ≡ json.null = cc v in
              absurd (cc (not_null, (json.is_null_iff value).1 w))
          | inr ne ↦ ne ∙ sym not_null
        ]
      ])
