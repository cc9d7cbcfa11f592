-- ===== src/Table/Tests.antt =====
-- A table of two pages, and the theorems at it.
use cachy_db.Base.{◌+◌, ◌*◌, ◌/◌, ◌≡◌, refl, true, [], ok, length, arith}
use cachy_db.Bytes.{Bytes, read, zeros}
use cachy_db.Bytes.Slices.{length-zeros}
use cachy_db.Pager.{Pager}
use cachy_db.Pager.Valid.{view}
use cachy_db.Pager.View.{new_page, new_page-IsValid}
use cachy_db.Table.{TableHandler, opened, total_pages, allocate_page, read_page, write_page}
use cachy_db.Table.Pages.{page_at, read_page-write_page, read_page-allocate_page}

abbrev handler : TableHandler (Unit {0})
handler = record { file = zeros 8192; is_open = true; page_cache = [] }

abbrev page : Pager (Unit {0})
page = new_page 1 3

read_page-write_page_example :
    (h' : TableHandler (Unit {0})) × (b : Bytes) × (write_page handler page ≡ (h', ok tt))
    × ((h'' : TableHandler (Unit {0})) × (read_page (opened h'.file) page.page_id
          ≡ ok (h'', record page { buffer = b; cached_metadata = [] })))
    × (view (record page { buffer = b }) ≡ view page)
    × (total_pages h' ≡ total_pages handler)
    × (page_at h'.file 0 ≡ page_at handler.file 0)
read_page-write_page_example =
    read_page-write_page handler page 0 refl (new_page-IsValid 1 3 (omega arith)) (omega arith)
      (omega (arith, length-zeros 8192)) (omega arith)

read_page-allocate_page_example :
    let id = length handler.file / 4096 in
    (h' : TableHandler (Unit {0})) × (b : Bytes) × (allocate_page handler ≡ (h', ok id))
    × ((h'' : TableHandler (Unit {0})) × (read_page (opened h'.file) id
          ≡ ok (h'', record (new_page id 0) { buffer = b })))
    × (total_pages h' ≡ ok (id + 1))
    × (read 0 (id * 4096) h'.file ≡ read 0 (id * 4096) handler.file)
read_page-allocate_page_example =
    read_page-allocate_page handler refl (omega (arith, length-zeros 8192))
