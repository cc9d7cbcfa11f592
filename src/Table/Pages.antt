-- ===== src/Table/Pages.antt =====
-- Pages on disk: what was allocated or written is read back by a handler that opens the file again.
use cachy_db.Base.{
  ℕ, ◌+◌, ◌*◌, ◌/◌, ◌≤◌, ◌<◌, ◌≡◌, ◌≢◌, ◌⊎◌, inl, inr, ap, subst, ◌∙◌, true, false, [], ok, leb,
  ltb, ltb→lt, Bool-cases, length, arith,
}
use cachy_db.Base.Exec.{after}
use cachy_db.Base.Dict
use cachy_db.Base.Dict.{nat_eq}
use cachy_db.Bytes.{Bytes, read, write}
use cachy_db.Bytes.Slices.{
  length-write, length-write_end, read-write_self, read-write_above, read-write_below,
}
use cachy_db.Pager.{Pager, to_bytes, from_bytes}
use cachy_db.Pager.Valid.{IsValid, view}
use cachy_db.Pager.View.{new_page, new_page-IsValid}
use cachy_db.Pager.Codec.{from_bytes-to_bytes, init_lem}
use cachy_db.Table.{
  TableHandler, opened, total_pages, require_open, store_page, page_to_allocate, allocate_page,
  read_page, write_page, load_page, cached_or_load,
}

-- The bytes of a page in the file.
abbrev pub page_at : Bytes → ℕ → Bytes
page_at file i = read (i * 4096) 4096 file

pub page_at-write :
    (file raw : Bytes) (i : ℕ)
    → length raw ≡ 4096
    → i * 4096 ≤ length file
    → page_at (write (i * 4096) raw file) i ≡ raw
page_at-write file raw i l h =
    subst (λ n. read (i * 4096) n (write (i * 4096) raw file) ≡ raw) l
      (read-write_self (i * 4096) raw file h)

pub page_at-write_other :
    (file raw : Bytes) (i j : ℕ)
    → length raw ≡ 4096
    → (i * 4096 + 4096 ≤ length file) ⊎ (j < i)
    → i * 4096 ≤ length file
    → j ≢ i
    → page_at (write (i * 4096) raw file) j ≡ page_at file j
page_at-write_other file raw i j l h k d = elim (Bool-cases (ltb j i)) [
  | inl e ↦
      let e' = ltb→lt j i e in read-write_above (i * 4096) (j * 4096) 4096 raw file (omega arith) k
  | inr e ↦
      let e' : i < j = ground (arith, e) in
      let fit : i * 4096 + 4096 ≤ length file = ground arith in
      read-write_below (i * 4096) (j * 4096) 4096 raw file (omega arith) (omega arith)
]

module _ {M : Type 0} where
  -- A handler that opens the file finds the page that its bytes encode.
  reopened :
      (file raw : Bytes) (i : ℕ) (p : Pager M)
      → i * 4096 + 4096 ≤ length file
      → page_at file i ≡ raw
      → length raw ≡ 4096
      → from_bytes raw ≡ ok p
      → (h : TableHandler M) × (read_page (opened file) i ≡ ok (h, p))
  unfolding read_page cached_or_load load_page total_pages require_open Dict.get
  reopened file raw i p l e n d =
      let s : leb (length file / 4096) i ≡ false = ground arith in
      (record { file = file; is_open = true; page_cache = Dict.put i p [] }, rw (s, e, n, d))

  -- Writing a valid page that is allocated into an open table succeeds. A handler that opens the file
  -- afterwards reads that page, with its id, flags, offsets, slots and records. The number of pages
  -- and the bytes of any other page j stay.
  pub read_page-write_page :
      (h : TableHandler M) (p : Pager M) (j : ℕ)
      → h.is_open ≡ true
      → IsValid p
      → p.page_id < 4294967296
      → p.page_id < length h.file / 4096
      → j ≢ p.page_id
      → (h' : TableHandler M) × (b : Bytes) × (write_page h p ≡ (h', ok tt))
        × ((h'' : TableHandler M) × (read_page (opened h'.file) p.page_id
              ≡ ok (h'', record p { buffer = b; cached_metadata = [] })))
        × (view (record p { buffer = b }) ≡ view p)
        × (total_pages h' ≡ total_pages h)
        × (page_at h'.file j ≡ page_at h.file j)
  unfolding write_page store_page total_pages require_open
  read_page-write_page h p j o v i l d =
      let (b, e, f, n, w) = from_bytes-to_bytes p v i in
      let s : leb (length h.file / 4096) p.page_id ≡ false = ground arith in
      let fit : p.page_id * 4096 + 4096 ≤ length h.file = omega arith in
      let file' = write (p.page_id * 4096) b h.file in
      let size : length file' ≡ length h.file =
        length-write (p.page_id * 4096) b h.file (omega arith) in
      (
        record h {
          page_cache = Dict.put p.page_id (record p { buffer = b }) h.page_cache;
          file = file';
        },
        b,
        rw (o, s, e),
        reopened file' b p.page_id (record p { buffer = b; cached_metadata = [] }) (omega arith)
            (page_at-write h.file b p.page_id n (omega arith)) n f,
        w,
        rw (o, size),
        page_at-write_other h.file b p.page_id j n (inl fit) (omega arith) d,
      )

  pub allocate_page_lem :
      (h : TableHandler M) (b : Bytes)
      → h.is_open ≡ true
      → let id = length h.file / 4096 in
        to_bytes (new_page {M = M} id 0) ≡ ok (record (new_page id 0) { buffer = b }, b)
        → allocate_page h ≡ (
          record h {
            page_cache = Dict.put id (record (new_page id 0) { buffer = b }) h.page_cache;
            file = write (id * 4096) b h.file;
          },
          ok id,
        )
  unfolding allocate_page total_pages require_open store_page
  allocate_page_lem h b o e =
      let id = length h.file / 4096 in
      let p : Pager M = new_page id 0 in
      let made : page_to_allocate h ≡ ok p = rw (o) (init_lem id 0 (omega arith)) in
      ap
        (λ r.
          after (h, r)
            (λ new h1. after (store_page new (to_bytes new) h1) (λ u h2. (h2, ok new.page_id))))
        made
      ∙ ap (λ r. after (store_page p r h) (λ u h2. (h2, ok id))) e

  -- Allocating a page of an open table of fewer than 2^32 pages succeeds. The id is the old number of
  -- pages, there is one page more, a handler that opens the file afterwards reads an empty page with
  -- that id, and the bytes of all pages before it stay.
  pub read_page-allocate_page :
      (h : TableHandler M)
      → h.is_open ≡ true
      → length h.file / 4096 < 4294967296
      → let id = length h.file / 4096 in
        (h' : TableHandler M) × (b : Bytes) × (allocate_page h ≡ (h', ok id))
        × ((h'' : TableHandler M) × (read_page (opened h'.file) id
              ≡ ok (h'', record (new_page id 0) { buffer = b })))
        × (total_pages h' ≡ ok (id + 1))
        × (read 0 (id * 4096) h'.file ≡ read 0 (id * 4096) h.file)
  unfolding allocate_page total_pages require_open
  read_page-allocate_page h o i =
      let id = length h.file / 4096 in
      let p : Pager M = new_page id 0 in
      let (b, e, f, n, w) = from_bytes-to_bytes p (new_page-IsValid id 0 (omega arith)) i in
      let file' = write (id * 4096) b h.file in
      let size : length file' ≡ id * 4096 + 4096 =
        length-write_end (id * 4096) b h.file (omega arith) (omega arith)
        ∙ ap (λ n. id * 4096 + n) n in
      let count : length file' / 4096 ≡ id + 1 = omega arith in
      (
        record h { page_cache = Dict.put id (record p { buffer = b }) h.page_cache; file = file' },
        b,
        allocate_page_lem h b o e,
        reopened file' b id (record p { buffer = b }) (omega arith)
            (page_at-write h.file b id n (omega arith)) n f,
        rw (o, count),
        read-write_above (id * 4096) 0 (id * 4096) b h.file (omega arith) (omega arith),
      )
