-- ===== src/Pager.antt =====
-- src/cachyDB/pager/pager.py: the slotted page. Byte counts, offsets and ids are natural numbers, so
-- the checks for negative ones have nothing to refuse, and a payload is bytes. `M` is the type of
-- what the router caches for a slot.
pub mod Valid
mod Reads
mod Slots
mod Layers
pub mod View
pub mod Fetch
pub mod Compact
pub mod Codec
mod Tests
use cachy_db.Base.{
  ℕ, zero, suc, ◌+◌, ◌-◌, ◌*◌, Bool, true, false, ◌&&◌, ◌||◌, not, Option, none, some, List, [],
  ◌∷◌, ◌++◌, map, Result, ok, raise, ◌>>=◌, ◌>>◌, raise_if, or_raise, value_error, index_error,
  page_overflow_error, page_corruption_error, ltb, leb, ◌==◌, if◌then◌else◌, length, get_elem?, set,
  eq_str,
}
use cachy_db.Bytes.{Bytes, read, write, zeros, pack_h, pack_i, from_big, crc32}

pub record Pager (M : Type 0) : Type 0 where
  pub page_id : ℕ
  pub flags : ℕ
  pub lower_offset : ℕ
  pub upper_offset : ℕ
  pub cached_metadata : List (ℕ × M)
  pub slots : List (ℕ × ℕ)
  pub buffer : Bytes

abbrev pub page_size : ℕ
page_size = 4096

abbrev pub header_size : ℕ
header_size = 20

abbrev pub slot_size : ℕ
slot_size = 4

abbrev pub checksum_offset : ℕ
checksum_offset = 16

abbrev pub max_flags : ℕ
max_flags = 65535

-- `b"CDBP"`
abbrev pub magic_data_page : Bytes
magic_data_page = 0x43 ∷ 0x44 ∷ 0x42 ∷ 0x50 ∷ []

-- The tombstone `(0, 0)`
abbrev pub is_deleted : ℕ × ℕ → Bool
is_deleted s = (s.0 == 0) && (s.1 == 0)

-- The bytes of a slot, `none` for a deleted one.
abbrev pub slot_record : Bytes → ℕ × ℕ → Option Bytes
slot_record b s = if is_deleted s then none else some (read s.0 s.1 b)

module _ {M : Type 0} where
  -- `Pager(page_id, flags)`
  pub init : ℕ → ℕ → Result (Pager M)
  init page_id flags = do
    raise_if (not (leb flags max_flags)) value_error
    ok (record {
      page_id = page_id;
      flags = flags;
      lower_offset = header_size;
      upper_offset = page_size;
      cached_metadata = [];
      slots = [];
      buffer = zeros page_size;
    })

  -- A negative difference, which a valid page never has, is 0 here.
  abbrev pub free_space : Pager M → ℕ
  free_space p = p.upper_offset - p.lower_offset

  abbrev pub has_space_for : Pager M → ℕ → Bool
  has_space_for p payload_length = leb (slot_size + payload_length) (free_space p)

  pub insert_record : Pager M → Bytes → Result (Pager M × ℕ)
  insert_record p payload = do
    let payload_len = length payload
    raise_if (payload_len == 0) value_error
    raise_if (not (has_space_for p payload_len)) page_overflow_error
    let upper = p.upper_offset - payload_len
    ok (
      record p {
        upper_offset = upper;
        buffer = write upper payload p.buffer;
        slots = p.slots ++ (upper, payload_len) ∷ [];
        lower_offset = p.lower_offset + slot_size;
        cached_metadata = [];
      },
      length p.slots,
    )

  pub get_record : Pager M → ℕ → Result (Option Bytes)
  get_record p slot_id = do
    raise_if (leb (length p.slots) slot_id) value_error
    slot ← or_raise index_error (get_elem? p.slots slot_id)
    ok (slot_record p.buffer slot)

  pub delete_record : Pager M → ℕ → Result (Pager M)
  delete_record p slot_id = do
    raise_if (leb (length p.slots) slot_id) value_error
    slot ← or_raise index_error (get_elem? p.slots slot_id)
    raise_if (is_deleted slot) value_error
    ok (record p {
      buffer = write slot.0 (zeros slot.1) p.buffer;
      slots = set p.slots slot_id (0, 0);
      cached_metadata = [];
    })

-- The second loop of `compact`: the records go, in the order of their slots, below `upper`; a slot
-- without a record stays as it is. The result is the new upper offset, the slots and the buffer.
pub repack : ℕ → Bytes → List (ℕ × ℕ) → List (Option Bytes) → ℕ × (List (ℕ × ℕ) × Bytes)
repack upper b [] records = (upper, ([], b))
repack upper b (s ∷ slots) [] = (upper, (s ∷ slots, b))
repack upper b (s ∷ slots) (none ∷ records) =
    let rest = repack upper b slots records in (rest.0, (s ∷ rest.1.0, rest.1.1))
repack upper b (s ∷ slots) (some r ∷ records) =
    let upper' = upper - length r in
    let rest = repack upper' (write upper' r b) slots records in
    (rest.0, ((upper', length r) ∷ rest.1.0, rest.1.1))

module _ {M : Type 0} where
  pub compact : Pager M → Pager M
  unfolding repack
  compact p =
      let active_records = map (slot_record p.buffer) p.slots in
      let packed = repack page_size p.buffer p.slots active_records in
      let free_size = packed.0 - p.lower_offset in
      record p {
        upper_offset = packed.0;
        slots = packed.1.0;
        buffer =
            if ltb 0 free_size
            then write p.lower_offset (zeros free_size) packed.1.1
            else packed.1.1;
        cached_metadata = [];
      }

-- `struct.pack(SLOT_FORMAT, offset, length)` of every slot
pub pack_slots : List (ℕ × ℕ) → Result Bytes
pack_slots [] = ok []
pack_slots (s ∷ slots) = do
  offset ← pack_h s.0
  length' ← pack_h s.1
  rest ← pack_slots slots
  ok (offset ++ length' ++ rest)

-- One turn of the loop of `from_bytes` over the slots, and the loop from slot `i`.
pub load_slot : ℕ → Bytes → ℕ → Result (ℕ × ℕ)
load_slot upper slot_area i = do
  let entry = read (i * slot_size) slot_size slot_area
  let slot_offset = from_big (read 0 2 entry)
  let slot_length = from_big (read 2 2 entry)
  let outside = ltb slot_offset upper || ltb page_size (slot_offset + slot_length)
  raise_if (if slot_offset == 0 then not (slot_length == 0) else outside) page_corruption_error
  ok (slot_offset, slot_length)

pub load_slots : ℕ → Bytes → ℕ → ℕ → Result (List (ℕ × ℕ))
unfolding load_slot
load_slots upper slot_area i zero = ok []
load_slots upper slot_area i (suc n) = do
  slot ← load_slot upper slot_area i
  rest ← load_slots upper slot_area (suc i) n
  ok (slot ∷ rest)

-- The buffer with the checksum field zeroed.
abbrev pub clear_checksum : Bytes → Bytes
clear_checksum b = write checksum_offset (zeros 4) b

module _ {M : Type 0} where
  -- `struct.pack(HEADER_FORMAT_NO_CHECKSUM, ...)`
  pub pack_header : Pager M → Result Bytes
  pack_header p = do
    page_id ← pack_i p.page_id
    lower ← pack_h p.lower_offset
    upper ← pack_h p.upper_offset
    num_slots ← pack_h (length p.slots)
    flags ← pack_h p.flags
    ok (magic_data_page ++ page_id ++ lower ++ upper ++ num_slots ++ flags)

  -- The bytes of the page, which are its buffer from then on.
  pub to_bytes : Pager M → Result (Pager M × Bytes)
  unfolding pack_slots pack_header
  to_bytes p = do
    slot_bytes ← pack_slots p.slots
    header_no_checksum ← pack_header p
    let unchecked =
        clear_checksum (write 0 header_no_checksum (write header_size slot_bytes p.buffer))
    checksum ← pack_i (crc32 unchecked)
    let data' = write checksum_offset checksum unchecked
    ok (record p { buffer = data' }, data')

  pub from_bytes : Bytes → Result (Pager M)
  unfolding init load_slots
  from_bytes raw_data = do
    raise_if (not (length raw_data == page_size)) page_corruption_error
    let page_id = from_big (read 4 4 raw_data)
    let lower = from_big (read 8 2 raw_data)
    let upper = from_big (read 10 2 raw_data)
    let num_slots = from_big (read 12 2 raw_data)
    let flags = from_big (read 14 2 raw_data)
    let checksum = from_big (read 16 4 raw_data)
    raise_if (not (eq_str (read 0 4 raw_data) magic_data_page)) page_corruption_error
    raise_if (not (crc32 (clear_checksum raw_data) == checksum)) page_corruption_error
    raise_if (not (lower == header_size + num_slots * slot_size)) page_corruption_error
    raise_if (not (leb header_size lower && leb lower page_size)) page_corruption_error
    raise_if (not (leb lower upper && leb upper page_size)) page_corruption_error
    page ← init page_id flags
    let slot_area = read header_size (lower - header_size) raw_data
    slots ← load_slots upper slot_area 0 num_slots
    ok (record page {
      buffer = raw_data;
      lower_offset = lower;
      upper_offset = upper;
      slots = slots;
    })
