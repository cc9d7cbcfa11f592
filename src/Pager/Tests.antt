-- ===== src/Pager/Tests.antt =====
-- A page with one record, and the theorems at it.
use cachy_db.Base.{
  ℕ, ◌+◌, ◌-◌, ◌≡◌, refl, ap, ◌∙◌, ◌⊎◌, ◌↔◌, ◌<◌, inl, none, some, [], ◌∷◌, ◌++◌, length, get_elem?,
  set, ok, raise, or_raise, value_error, page_overflow_error, if◌then◌else◌, ◌==◌, arith,
}
use cachy_db.Bytes.{Bytes, read, zeros}
use cachy_db.Pager.{
  Pager, init, insert_record, get_record, delete_record, compact, to_bytes, from_bytes,
}
use cachy_db.Pager.Valid.{IsValid, view, total}
use cachy_db.Pager.View.{
  new_page, new_page-IsValid, inserted, inserted-IsValid, inserted-view, init-view,
  insert_record-view, insert_record-refuses, get_record-view, delete_record-view,
  delete_record-refuses,
}
use cachy_db.Pager.Fetch.{get_record-insert_record, get_record-delete_record}
use cachy_db.Pager.Compact.{compact-view}
use cachy_db.Pager.Codec.{from_bytes-to_bytes}

abbrev empty : Pager (Unit {0})
empty = new_page 7 1

abbrev payload : Bytes
payload = 1 ∷ 2 ∷ 3 ∷ []

abbrev page : Pager (Unit {0})
page = inserted empty payload

page-IsValid : IsValid page
page-IsValid =
    inserted-IsValid empty payload (new_page-IsValid 7 1 (omega arith)) (omega arith) refl

page-view : view page ≡ some payload ∷ []
page-view = inserted-view empty payload (new_page-IsValid 7 1 (omega arith)) (omega arith) refl

new-page : (p : Pager (Unit {0})) × (init 7 1 ≡ ok p) × IsValid p × (view p ≡ [])
new-page = init-view 7 1 (omega arith)

insert_record-view_example :
    (p' : Pager (Unit {0})) × (insert_record page (9 ∷ []) ≡ ok (p', length (view page)))
    × IsValid p'
    × (view p' ≡ view page ++ some (9 ∷ []) ∷ [])
insert_record-view_example = insert_record-view page (9 ∷ []) page-IsValid (omega arith) refl

abbrev no_bytes : Bytes
no_bytes = []

insert_record-refuses_example :
    (insert_record page no_bytes
      ≡ raise (if length no_bytes == 0 then value_error else page_overflow_error))
    ↔ ((no_bytes ≡ []) ⊎ (page.upper_offset < page.lower_offset + 4 + length no_bytes))
insert_record-refuses_example = insert_record-refuses page no_bytes

get_record-insert_record_example :
    (p' : Pager (Unit {0})) × (slot_id : ℕ) × (insert_record page (9 ∷ []) ≡ ok (p', slot_id))
    × (get_record p' slot_id ≡ ok (some (9 ∷ [])))
    × ((0 ≡ slot_id) ⊎ (get_record p' 0 ≡ get_record page 0))
get_record-insert_record_example =
    get_record-insert_record page (9 ∷ []) 0 page-IsValid (omega arith) (omega arith)

page-first : get_record page 0 ≡ ok (some payload)
page-first = get_record-view page 0 ∙ ap (λ l. or_raise value_error (get_elem? l 0)) page-view

get_record-delete_record_example :
    (p' : Pager (Unit {0})) × (delete_record page 0 ≡ ok p')
    × (get_record p' 0 ≡ ok none)
    × ((◌≡◌ {A = ℕ} 1 0) ⊎ (get_record p' 1 ≡ get_record page 1))
get_record-delete_record_example = get_record-delete_record page 0 1 payload page-IsValid page-first

delete_record-view_example :
    (p' : Pager (Unit {0})) × (delete_record page 0 ≡ ok p')
    × IsValid p'
    × (view p' ≡ set (view page) 0 none)
delete_record-view_example =
    delete_record-view page 0 payload page-IsValid (ap (λ l. get_elem? l 0) page-view)

delete-missing : delete_record page 5 ≡ raise value_error
delete-missing = delete_record-refuses page 5 (inl (ap (λ l. get_elem? l 5) page-view))

compact-view_example :
    IsValid (compact page)
    × (view (compact page) ≡ view page)
    × ((compact page).upper_offset + total page.slots ≡ 4096)
    × (read
          (compact page).lower_offset
          ((compact page).upper_offset - (compact page).lower_offset)
          (compact page).buffer
        ≡ zeros ((compact page).upper_offset - (compact page).lower_offset))
compact-view_example = compact-view page page-IsValid

from_bytes-to_bytes_example :
    (b : Bytes) × (to_bytes page ≡ ok (record page { buffer = b }, b))
    × (from_bytes b ≡ ok (record page { buffer = b; cached_metadata = [] }))
    × (length b ≡ 4096)
    × (view (record page { buffer = b }) ≡ view page)
from_bytes-to_bytes_example = from_bytes-to_bytes page page-IsValid (omega arith)
