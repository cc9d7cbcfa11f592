-- ===== src/Pager/Codec.antt =====
-- `to_bytes` and `from_bytes`: a page that was written is read back.
use cachy_db.Base.{
  ℕ, ◌+◌, ◌-◌, ◌*◌, ◌≤◌, ◌<◌, ◌≡◌, refl, ap, ◌∙◌, true, ◌&&◌, ◌==◌, leb, [], ◌++◌, length, arith,
  ok, eq_str, eq_str_iff,
}
use cachy_db.Bytes.{Bytes, read, zeros, bytes2, bytes4, crc32, from_big}
use cachy_db.Bytes.Slices.{read-write_below}
use cachy_db.Bytes.Widths.{from_big-bytes2, from_big-bytes4, pack_h_lem, pack_i_lem, crc32_bound}
use cachy_db.Pager.{
  Pager, slot_record, magic_data_page, pack_header, to_bytes, from_bytes, clear_checksum, init,
}
use cachy_db.Pager.Valid.{InArea, IsValid, view}
use cachy_db.Pager.Reads.{live, map-same, record-same}
use cachy_db.Pager.Slots.{slots_bytes, length-slots_bytes, pack_slots_lem, load_slots_lem}
use cachy_db.Pager.Layers.{
  unchecked, raw, length-layers, read-header, read-after, read-slots, read-checksum,
  clear_checksum-raw,
}

module _ {M : Type 0} where
  header_bytes : Pager M → Bytes
  header_bytes p =
      magic_data_page
      ++ bytes4 p.page_id
      ++ bytes2 p.lower_offset
      ++ bytes2 p.upper_offset
      ++ bytes2 (length p.slots)
      ++ bytes2 p.flags

  pack_header_lem :
      (p : Pager M) → IsValid p → p.page_id < 4294967296 → pack_header p ≡ ok (header_bytes p)
  unfolding pack_header header_bytes
  pack_header_lem p v i =
      let low = v.lower in
      let ord = v.ordered in
      let up = v.upper in
      rw (
        pack_i_lem p.page_id i,
        pack_h_lem p.lower_offset (omega arith),
        pack_h_lem p.upper_offset (omega arith),
        pack_h_lem (length p.slots) (omega arith),
        pack_h_lem p.flags (omega (arith, v.bits)),
      )

  -- The bytes of a page as `to_bytes` computes them.
  page_bytes : Pager M → Bytes
  page_bytes p =
      let h = header_bytes p in
      let sb = slots_bytes p.slots in raw h sb (bytes4 (crc32 (unchecked h sb p.buffer))) p.buffer

  to_bytes_lem :
      (p : Pager M)
      → IsValid p
      → p.page_id < 4294967296
      → to_bytes p ≡ ok (record p { buffer = page_bytes p }, page_bytes p)
  unfolding to_bytes page_bytes raw unchecked
  to_bytes_lem p v i = rw (
    pack_slots_lem p.upper_offset p.slots v.area,
    pack_header_lem p v i,
    pack_i_lem (crc32 (unchecked (header_bytes p) (slots_bytes p.slots) p.buffer)) (crc32_bound _),
  )

  -- What `from_bytes` reads in the header of a valid page.
  header_fields :
      (p : Pager M)
      → IsValid p
      → p.page_id < 4294967296
      → let r = page_bytes p in
        (length r ≡ 4096)
        × (read 0 4 r ≡ magic_data_page)
        × (from_big (read 4 4 r) ≡ p.page_id)
        × (from_big (read 8 2 r) ≡ p.lower_offset)
        × (from_big (read 10 2 r) ≡ p.upper_offset)
        × (from_big (read 12 2 r) ≡ length p.slots)
        × (from_big (read 14 2 r) ≡ p.flags)
        × ((crc32 (clear_checksum r) == from_big (read 16 4 r)) ≡ true)
        × (read 20 (p.lower_offset - 20) r ≡ slots_bytes p.slots)
  unfolding page_bytes header_bytes read
  header_fields p v i =
      let h = header_bytes p in
      let sb = slots_bytes p.slots in
      let c = crc32 (unchecked h sb p.buffer) in
      let low = v.lower in
      let ord = v.ordered in
      let up = v.upper in
      let bits = v.bits in
      let size = v.size in
      let l : length sb ≡ length p.slots * 4 = length-slots_bytes p.slots in
      let fit : 20 + length sb ≤ 4096 = omega arith in
      let (l₁, l₂, l₃, l₄) = length-layers h sb (bytes4 c) p.buffer refl refl fit size in
      let head = read-header h sb (bytes4 c) p.buffer refl refl fit size in
      let check : from_big (read 16 4 (page_bytes p)) ≡ c =
        ap from_big (read-checksum h sb (bytes4 c) p.buffer refl refl fit size)
        ∙ from_big-bytes4 c (crc32_bound (unchecked h sb p.buffer)) in
      let clear : crc32 (clear_checksum (page_bytes p)) ≡ c =
        ap crc32 (clear_checksum-raw h sb (bytes4 c) p.buffer refl refl fit size) in
      (
        l₄,
        head 0 4 (omega arith),
        ap from_big (head 4 4 (omega arith)) ∙ from_big-bytes4 p.page_id i,
        ap from_big (head 8 2 (omega arith)) ∙ from_big-bytes2 p.lower_offset (omega arith),
        ap from_big (head 10 2 (omega arith)) ∙ from_big-bytes2 p.upper_offset (omega arith),
        ap from_big (head 12 2 (omega arith)) ∙ from_big-bytes2 (length p.slots) (omega arith),
        ap from_big (head 14 2 (omega arith)) ∙ from_big-bytes2 p.flags (omega arith),
        ground (arith, clear, check),
        ap (λ n. read 20 n (page_bytes p)) (omega arith)
            ∙ read-slots h sb (bytes4 c) p.buffer refl refl fit size,
      )

  pub init_lem :
      (page_id flags : ℕ)
      → flags ≤ 65535
      → init {M = M} page_id flags
        ≡ ok (record {
          page_id = page_id;
          flags = flags;
          lower_offset = 20;
          upper_offset = 4096;
          cached_metadata = [];
          slots = [];
          buffer = zeros 4096;
        })
  unfolding init
  init_lem page_id flags h = ground (arith, h)

  view-page_bytes : (p : Pager M) → IsValid p → view (record p { buffer = page_bytes p }) ≡ view p
  unfolding page_bytes header_bytes
  view-page_bytes p v =
      let h = header_bytes p in
      let sb = slots_bytes p.slots in
      let c = crc32 (unchecked h sb p.buffer) in
      let low = v.lower in
      let ord = v.ordered in
      let up = v.upper in
      let size = v.size in
      let l : length sb ≡ length p.slots * 4 = length-slots_bytes p.slots in
      let fit : 20 + length sb ≤ 4096 = omega arith in
      map-same (InArea p.upper_offset) (slot_record (page_bytes p)) (slot_record p.buffer)
        (λ s a. record-same p.buffer (page_bytes p) s λ d.
          let (l₀, l₁, l₂, l₃) = live p.upper_offset s a d in
          read-after h sb (bytes4 c) p.buffer refl refl fit size s.0 s.1 (omega arith)
          ∙ read-write_below 20 s.0 s.1 sb p.buffer (omega arith) (omega arith))
        p.slots v.area

  -- Writing a valid page whose id fits into 32 bits and reading the bytes back: both succeed, and
  -- the page read is the one written, with the same id, flags, offsets and slots, its buffer the
  -- bytes, and nothing cached. The records are those of the page before.
  pub from_bytes-to_bytes :
      (p : Pager M)
      → IsValid p
      → p.page_id < 4294967296
      → (b : Bytes) × (to_bytes p ≡ ok (record p { buffer = b }, b))
        × (from_bytes b ≡ ok (record p { buffer = b; cached_metadata = [] }))
        × (length b ≡ 4096)
        × (view (record p { buffer = b }) ≡ view p)
  unfolding from_bytes
  from_bytes-to_bytes p v i =
      let (f₀, f₁, f₂, f₃, f₄, f₅, f₆, f₇, f₈) = header_fields p v i in
      let magic : eq_str (read 0 4 (page_bytes p)) magic_data_page ≡ true =
        (eq_str_iff (read 0 4 (page_bytes p)) magic_data_page).1 f₁ in
      let low = v.lower in
      let ord = v.ordered in
      let up = v.upper in
      let t₀ : (p.lower_offset == 20 + length p.slots * 4) ≡ true = ground (arith, low) in
      let t₁ : (leb 20 p.lower_offset && leb p.lower_offset 4096) ≡ true = ground (arith, low) in
      let t₂ : (leb p.lower_offset p.upper_offset && leb p.upper_offset 4096) ≡ true =
        ground arith in
      (
        page_bytes p,
        to_bytes_lem p v i,
        rw (
          f₀,
          magic,
          f₇,
          f₂,
          f₃,
          f₄,
          f₅,
          f₆,
          t₀,
          t₁,
          t₂,
          init_lem p.page_id p.flags v.bits,
          f₈,
          load_slots_lem p.upper_offset p.slots [] 0 (omega arith) v.area,
        ),
        f₀,
        view-page_bytes p v,
      )
