-- ===== src/Table/View.antt =====
-- The pages that a handler hands out, as a map from their ids, and what the methods do to it.
use cachy_db.Base.{
  Str, ℕ, ◌+◌, ◌*◌, ◌/◌, ◌≤◌, ◌<◌, ◌≡◌, ◌≢◌, inl, inr, refl, ap, sym, ◌∙◌, true, false, Option,
  Option-cases, none, some, [], Result, Result-cases, ok, raise, leb, ltb, Bool-cases, length,
  arith, if◌then◌else◌,
}
use cachy_db.Base.Dict
use cachy_db.Base.Dict.{nat_eq, get-put}
use cachy_db.BTree.MemTable.{is_empty}
use cachy_db.Bytes.{Bytes, write}
use cachy_db.Bytes.Slices.{length-write, length-write_end, length-read}
use cachy_db.Pager.{Pager, from_bytes}
use cachy_db.Pager.Valid.{IsValid, view}
use cachy_db.Pager.View.{new_page, new_page-IsValid}
use cachy_db.Pager.Codec.{from_bytes-to_bytes}
use cachy_db.Table
use cachy_db.Table.{
  TableHandler, store_page, total_pages, require_open, allocate_page, read_page, write_page,
  load_page, cached_or_load,
}
use cachy_db.Table.Pages.{allocate_page_lem, page_at, page_at-write, page_at-write_other}

module _ {M : Type 0} where
  abbrev pub decoded : Result (Pager M) → Option (Pager M)
  decoded (ok p) = some p
  decoded (raise e) = none

  -- The page that the file has for an id.
  abbrev pub stored_page : Bytes → ℕ → Option (Pager M)
  stored_page file i =
      if leb (length file / 4096) i then none else decoded (from_bytes (page_at file i))

  -- The page that the handler keeps, or else that of the file.
  abbrev pub or_stored : Bytes → ℕ → Option (Pager M) → Option (Pager M)
  or_stored file i (some p) = some p
  or_stored file i none = stored_page file i

  abbrev pub page_of : TableHandler M → ℕ → Option (Pager M)
  page_of h i = or_stored h.file i (Dict.get i h.page_cache)

  pub page_of-put :
      (h : TableHandler M) (i j : ℕ) (p : Pager M)
      → page_of (record h { page_cache = Dict.put i p h.page_cache }) j
        ≡ (if nat_eq.beq j i then some p else page_of h j)
  page_of-put h i j p = ground (arith, get-put i j p h.page_cache)

  stored_lem :
      (file : Bytes) (i : ℕ) (p : Pager M)
      → stored_page file i ≡ some p
      → (leb (length file / 4096) i ≡ false) × (from_bytes (page_at file i) ≡ ok p)
  stored_lem file i p e = elim (Bool-cases (leb (length file / 4096) i)) [
    | inl out ↦ absurd (ground (arith, e, out))
    | inr inside ↦ elim (Result-cases (from_bytes {M = M} (page_at file i))) [
      | inl (q, d) ↦ (inside, ground (arith, e, inside, d))
      | inr (x, d) ↦ absurd (ground (arith, e, inside, d))
    ]
  ]

  -- Keeping a page that is the page of its id changes no page.
  page_of-put_same :
      (h : TableHandler M) (i j : ℕ) (p : Pager M)
      → page_of h i ≡ some p
      → page_of (record h { page_cache = Dict.put i p h.page_cache }) j ≡ page_of h j
  page_of-put_same h i j p e = elim (Bool-cases (nat_eq.beq j i)) [
    | inl eq ↦
        let same : j ≡ i = (nat_eq.beq_iff j i).0 eq in page_of-put h i j p ∙ rw (eq, same) (sym e)
    | inr ne ↦ page_of-put h i j p ∙ rw ne
  ]

  -- `read_page` returns the page of the map and leaves the map as it is.
  pub read_page-page_of :
      (h : TableHandler M) (i : ℕ) (p : Pager M)
      → h.is_open ≡ true
      → page_of h i ≡ some p
      → (h' : TableHandler M) × (read_page h i ≡ ok (h', p))
        × (h'.file ≡ h.file)
        × (h'.is_open ≡ true)
        × ((j : ℕ) → page_of h' j ≡ page_of h j)
  unfolding read_page cached_or_load load_page total_pages require_open
  read_page-page_of h i p o e = elim (Option-cases (Dict.get i h.page_cache)) [
    | inr (q, c) ↦
        let same : q ≡ p = ground (arith, e, c) in (h, rw (o, c, same), refl, o, λ j. refl)
    | inl c ↦
        let (inside, d) = stored_lem h.file i p (ground (arith, e, c)) in
        let full : length (page_at h.file i) ≡ 4096 =
          length-read (i * 4096) 4096 h.file (ground (arith, inside)) in
        (
          record h { page_cache = Dict.put i p h.page_cache },
          rw (o, c, inside, full, d),
          refl,
          o,
          λ j. page_of-put_same h i j p e,
        )
  ]

  or_stored-same :
      (f g : Bytes) (j : ℕ) (o : Option (Pager M))
      → stored_page f j ≡ stored_page g j
      → or_stored f j o ≡ or_stored g j o
  or_stored-same f g j (some p) e = refl
  or_stored-same f g j none e = e

  stored_page-write_other :
      (file raw : Bytes) (i j : ℕ)
      → length raw ≡ 4096
      → i * 4096 + 4096 ≤ length file
      → j ≢ i
      → stored_page (write (i * 4096) raw file) j ≡ stored_page file j
  stored_page-write_other file raw i j l fit d =
      let size : length (write (i * 4096) raw file) ≡ length file =
        length-write (i * 4096) raw file (omega arith) in
      rw (size, page_at-write_other file raw i j l (inl fit) (omega arith) d) refl

  stored_page-write_end :
      (file raw : Bytes) (j : ℕ)
      → let i = length file / 4096 in
        length raw ≡ 4096 → j ≢ i → stored_page (write (i * 4096) raw file) j ≡ stored_page file j
  stored_page-write_end file raw j l d =
      let i = length file / 4096 in
      let size : length (write (i * 4096) raw file) ≡ i * 4096 + 4096 =
        length-write_end (i * 4096) raw file (omega arith) (omega arith)
        ∙ ap (λ n. i * 4096 + n) l in
      elim (Bool-cases (ltb j i)) [
        | inl below ↦
            let same =
              page_at-write_other file raw i j l (inr (ground (arith, below))) (omega arith) d in
            let a : leb ((i * 4096 + 4096) / 4096) j ≡ false = ground (arith, below) in
            let b : leb i j ≡ false = ground (arith, below) in rw (size, a, b, same) refl
        | inr above ↦
            let a : leb ((i * 4096 + 4096) / 4096) j ≡ true = ground (arith, above, d) in
            let b : leb i j ≡ true = ground (arith, above) in rw (size, a, b) refl
      ]

  -- The page of another id after the file was written and a page kept.
  page_of-put_other :
      (h : TableHandler M) (file : Bytes) (p : Pager M) (i j : ℕ)
      → stored_page file j ≡ stored_page h.file j
      → j ≢ i
      → page_of (record h { page_cache = Dict.put i p h.page_cache; file = file }) j ≡ page_of h j
  page_of-put_other h file p i j e d =
      let ne : nat_eq.beq j i ≡ false = ground (arith, d) in
      rw (get-put i j p h.page_cache, ne) (or_stored-same file h.file j (Dict.get j h.page_cache) e)

  -- `allocate_page` of an open table appends an empty page and leaves the other pages as they are.
  pub allocate_page-page_of :
      (h : TableHandler M)
      → h.is_open ≡ true
      → length h.file / 4096 < 4294967296
      → let id = length h.file / 4096 in
        (h' : TableHandler M) × (b : Bytes) × (allocate_page h ≡ (h', ok id))
        × (h'.is_open ≡ true)
        × (length h'.file / 4096 ≡ id + 1)
        × (page_of h' id ≡ some (record (new_page id 0) { buffer = b }))
        × (view (record (new_page {M = M} id 0) { buffer = b }) ≡ [])
        × (length b ≡ 4096)
        × (stored_page h'.file id ≡ some (record (new_page id 0) { buffer = b }))
        × ((j : ℕ)
            → j ≢ id
            → (page_of h' j ≡ page_of h j) × (stored_page h'.file j ≡ stored_page h.file j))
  unfolding allocate_page total_pages require_open
  allocate_page-page_of h o i =
      let id = length h.file / 4096 in
      let p : Pager M = new_page id 0 in
      let (b, e, f, n, w) = from_bytes-to_bytes p (new_page-IsValid id 0 (omega arith)) i in
      let file' = write (id * 4096) b h.file in
      let size : length file' ≡ id * 4096 + 4096 =
        length-write_end (id * 4096) b h.file (omega arith) (omega arith)
        ∙ ap (λ n. id * 4096 + n) n in
      let p' : Pager M = record p { buffer = b } in
      let end : leb ((id * 4096 + 4096) / 4096) id ≡ false = ground arith in
      (
        record h { page_cache = Dict.put id p' h.page_cache; file = file' },
        b,
        allocate_page_lem h b o e,
        o,
        omega (arith, size),
        rw (get-put id id p' h.page_cache, (nat_eq.beq_iff id id).1 refl) refl,
        w,
        n,
        rw (size, end, page_at-write h.file b id n (omega arith), f) refl,
        λ j d.
            let e = stored_page-write_end h.file b j n d in
            (page_of-put_other h file' p' id j e d, e),
      )

  -- `write_page` of a valid page of an open table keeps the page with the bytes that it wrote, leaves
  -- the other pages as they are, and the file has the page.
  pub write_page-page_of :
      (h : TableHandler M) (p : Pager M)
      → h.is_open ≡ true
      → IsValid p
      → p.page_id < 4294967296
      → p.page_id < length h.file / 4096
      → (h' : TableHandler M) × (b : Bytes) × (write_page h p ≡ (h', ok tt))
        × (h'.is_open ≡ true)
        × (length h'.file ≡ length h.file)
        × (page_of h' p.page_id ≡ some (record p { buffer = b }))
        × (view (record p { buffer = b }) ≡ view p)
        × (length b ≡ 4096)
        × (stored_page h'.file p.page_id ≡ some (record p { buffer = b; cached_metadata = [] }))
        × ((j : ℕ)
            → j ≢ p.page_id
            → (page_of h' j ≡ page_of h j) × (stored_page h'.file j ≡ stored_page h.file j))
  unfolding write_page store_page total_pages require_open
  write_page-page_of h p o v i l =
      let (b, e, f, n, w) = from_bytes-to_bytes p v i in
      let s : leb (length h.file / 4096) p.page_id ≡ false = ground arith in
      let id = p.page_id in
      let p' : Pager M = record p { buffer = b } in
      let file' = write (id * 4096) b h.file in
      let size : length file' ≡ length h.file = length-write (id * 4096) b h.file (omega arith) in
      (
        record h { page_cache = Dict.put id p' h.page_cache; file = file' },
        b,
        rw (o, s, e),
        o,
        size,
        rw (get-put id id p' h.page_cache, (nat_eq.beq_iff id id).1 refl) refl,
        w,
        n,
        rw (size, s, page_at-write h.file b id n (omega arith), f) refl,
        λ j d.
            let e = stored_page-write_other h.file b id j n (omega arith) d in
            (page_of-put_other h file' p' id j e d, e),
      )

  pub total_pages_lem :
      (h : TableHandler M) → h.is_open ≡ true → total_pages h ≡ ok (length h.file / 4096)
  unfolding total_pages require_open
  total_pages_lem h o = rw o refl

  pub require_open_lem : (h : TableHandler M) → h.is_open ≡ true → require_open h ≡ ok tt
  unfolding require_open
  require_open_lem h o = rw o refl

  -- A file with a name is opened.
  pub init_lem :
      (name : Str) (file : Bytes)
      → is_empty name ≡ false
      → Table.init {M = M} name file ≡ ok (Table.opened file)
  unfolding Table.init
  init_lem name file h = rw h refl
