-- ===== src/Table.antt =====
-- src/cachyDB/storage/table_handler.py: a table as a file of pages. The file is its bytes; opening
-- and syncing it, its directory and its permissions are the file system's. The handler's lock makes each
-- method one step. The page cache holds the objects that the methods hand out; here it holds their
-- values at that time.
pub mod Pages
pub mod View
mod Tests
use cachy_db.Base.{
  ℕ, ◌+◌, ◌*◌, ◌/◌, Bool, true, false, not, Option, none, some, List, [], ◌∷◌, Result, ok, raise,
  ◌>>=◌, ◌>>◌, raise_if, value_error, table_handler_error, Str, leb, ◌==◌, if◌then◌else◌, length,
}
use cachy_db.Base.Exec.{Exec, after}
use cachy_db.Base.Dict
use cachy_db.Base.Dict.{nat_eq}
use cachy_db.Bytes.{Bytes, read, write}
use cachy_db.BTree.MemTable.{is_empty}
use cachy_db.Pager
use cachy_db.Pager.{Pager, page_size, to_bytes, from_bytes}

pub record TableHandler (M : Type 0) : Type 0 where
  pub file : Bytes
  pub is_open : Bool
  pub page_cache : List (ℕ × Pager M)

-- `except PageError as exc: raise TableHandlerError`; the classes derived from PageError are the two
-- that `from_bytes` and the page raise.
abbrev pub page_error : {A : Type 0} → Result A → Result A
page_error (ok a) = ok a
page_error (raise e) = raise table_handler_error

module _ {M : Type 0} where
  -- The handler that `TableHandler(table_name)` makes once the name is checked and the file is open.
  abbrev pub opened : Bytes → TableHandler M
  opened file = record { file = file; is_open = true; page_cache = [] }

  -- `TableHandler(table_name)`, on the bytes of its file; a new file has none.
  pub init : Str → Bytes → Result (TableHandler M)
  init table_name file = do raise_if (is_empty table_name) value_error; ok (opened file)

  pub require_open : TableHandler M → Result (Unit {0})
  require_open h = raise_if (not h.is_open) table_handler_error

  pub total_pages : TableHandler M → Result ℕ
  unfolding require_open
  total_pages h = do require_open h; ok (length h.file / page_size)

  -- The page, which is cached, and its bytes, which are written unless `to_bytes` raised.
  pub store_page : Pager M → Result (Pager M × Bytes) → Exec (TableHandler M) (Unit {0})
  store_page page (raise e) h =
      (record h { page_cache = Dict.put page.page_id page h.page_cache }, raise e)
  store_page page (ok (page', data')) h = (
    record h {
      page_cache = Dict.put page.page_id page' h.page_cache;
      file = write (page.page_id * page_size) data' h.file;
    },
    ok tt,
  )

  abbrev pub page_to_allocate : TableHandler M → Result (Pager M)
  page_to_allocate h = do require_open h; new_page_id ← total_pages h; Pager.init new_page_id 0

  pub allocate_page : Exec (TableHandler M) ℕ
  unfolding require_open total_pages store_page
  allocate_page h =
      after (h, page_to_allocate h)
        (λ new h1. after (store_page new (to_bytes new) h1) (λ u h2. (h2, ok new.page_id)))

  -- The part of `read_page` for a page that is not cached.
  pub load_page : TableHandler M → ℕ → Result (TableHandler M × Pager M)
  unfolding total_pages
  load_page h page_id = do
    total ← total_pages h
    raise_if (leb total page_id) table_handler_error
    let raw_data = read (page_id * page_size) page_size h.file
    raise_if (not (length raw_data == page_size)) table_handler_error
    page ← page_error (from_bytes raw_data)
    ok (record h { page_cache = Dict.put page_id page h.page_cache }, page)

  pub cached_or_load : TableHandler M → ℕ → Option (Pager M) → Result (TableHandler M × Pager M)
  unfolding load_page
  cached_or_load h page_id (some page) = ok (h, page)
  cached_or_load h page_id none = load_page h page_id

  pub read_page : TableHandler M → ℕ → Result (TableHandler M × Pager M)
  unfolding require_open cached_or_load
  read_page h page_id = do require_open h; cached_or_load h page_id (Dict.get page_id h.page_cache)

  pub write_page : TableHandler M → Pager M → TableHandler M × Result (Unit {0})
  unfolding require_open total_pages store_page
  write_page h page =
      after
        (
          h,
          do
            require_open h
            total ← total_pages h
            raise_if (leb total page.page_id) table_handler_error,
        )
        (λ u. store_page page (to_bytes page))

  pub close : TableHandler M → TableHandler M
  close h = record h { page_cache = []; is_open = false }
