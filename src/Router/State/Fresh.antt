-- ===== src/Router/State/Fresh.antt =====
-- A new router, and a table that has no file yet.
use cachy_db.Base.{ℕ, ◌<◌, ◌≡◌, refl, ap, false, Option, none, [], ok, ltb, Str, arith}
use cachy_db.Base.Dict
use cachy_db.Base.Dict.{str_eq, pair_eq, nat_eq, mem}
use cachy_db.Bytes.{Bytes}
use cachy_db.Json.{Json}
use cachy_db.BTree.MemTable
use cachy_db.BTree.MemTable.{MemTable, is_empty}
use cachy_db.BTree.MemTable.Ops.{init-IsValid, size-init}
use cachy_db.Cache
use cachy_db.Cache.Reads
use cachy_db.Table.{opened}
use cachy_db.Table.View.{init_lem, total_pages_lem}
use cachy_db.Wal.{Wal}
use cachy_db.Router.State.{
  TableState, Router, init, open_table, init_disk_index, index_pages, get_table_state, put_table,
}
use cachy_db.Router.State.Tables.{get-put_table}
use cachy_db.Router.Disk.Sound.{page_count}
use cachy_db.Router.View.{IsCoherent, table_view, over}
use cachy_db.Router.Write.Rotation.{Roomy, budget}

module _ {V : Type 0} ⦃json : Json V⦄ where
  abbrev new_table : MemTable Bytes → TableState V
  new_table m = record {
    active_memtable = m;
    immutable_memtable = none;
    active_tx_ids = [];
    immutable_tx_ids = none;
    handler = opened [];
    disk_index = [];
    flush_pending = false;
  }

  index_empty : init_disk_index {M = Option (Str × V)} (opened []) ≡ (opened [], ok [])
  unfolding init_disk_index index_pages
  index_empty = rw (init_disk_index, total_pages_lem (opened []) refl) refl

  open_empty :
      (name : Str) (m : MemTable Bytes)
      → is_empty name ≡ false
      → MemTable.init 10 ≡ ok m
      → open_table name [] ≡ ok (new_table m)
  unfolding open_table
  open_empty name m n h =
      rw (open_table, h, init_lem {M = Option (Str × V)} name [] n, index_empty) refl

  abbrev new_router : Wal → (Str → Bytes) → ℕ → Cache.Cache (Str × Str) V → Router V
  new_router wal stored max_memtable_size cache = record {
    wal = wal;
    flushes_begun = 0;
    flushes_ended = 0;
    tables = [];
    half_opened = [];
    stored = stored;
    cache = cache;
    max_memtable_size = max_memtable_size;
  }

  pub get_table_state-cache :
      (r r' : Router V) (name : Str) (t : TableState V)
      → get_table_state name r ≡ (r', ok t)
      → r'.cache ≡ r.cache
  unfolding get_table_state
  get_table_state-cache r r' name t h = ground (arith, h)

  pub init-cache :
      (r : Router V) (wal : Wal) (stored : Str → Bytes) (max_memtable_size cache_capacity : ℕ)
      → init wal stored max_memtable_size cache_capacity ≡ ok r
      → r.cache ≡ Cache.init cache_capacity
  unfolding init
  init-cache r wal stored max_memtable_size cache_capacity h = ground (arith, h)

  -- A new router with limits of at least 1 opens a table that has a name and no file: the table is empty, and the
  -- cache agrees with it.
  pub get_table_state-init :
      (wal : Wal) (stored : Str → Bytes) (max_memtable_size cache_capacity : ℕ) (name : Str)
      → 0 < max_memtable_size
      → 0 < cache_capacity
      → is_empty name ≡ false
      → stored name ≡ []
      → (r : Router V) × (r' : Router V) × (t : TableState V) × (init wal stored max_memtable_size
            cache_capacity
          ≡ ok r)
        × (get_table_state name r ≡ (r', ok t))
        × IsCoherent r' name t (λ key. none)
        × ((key : Str) → table_view t (λ key. none) key ≡ none)
        × Roomy t
        × (page_count t.handler ≡ 0)
        × (t.active_memtable.size ≡ 0)
        × (budget t ≡ 0)
  unfolding init get_table_state Dict.get mem
  get_table_state-init wal stored max_memtable_size cache_capacity name p q ne e =
      let (m, made, valid, empty) = init-IsValid {V = Bytes} 10 (omega arith) in
      let r : Router V = new_router wal stored max_memtable_size (Cache.init cache_capacity) in
      let t = new_table m in
      let big : ltb max_memtable_size 1 ≡ false = ground (arith, p) in
      let room : ltb cache_capacity 1 ≡ false = ground (arith, q) in
      (
        r,
        put_table name t r,
        t,
        rw (init, big, room) refl,
        rw (get_table_state, e, open_empty name m ne made) refl,
        record {
          opened = get-put_table r name t;
          table = record {
            active = record { valid = valid; packed = λ k payload f. absurd (cc (f, empty k)) };
            immutable = tt;
            sound = record { opened = refl; pages = λ i l. absurd (omega (arith, l)) };
            synced = λ i l. absurd (omega (arith, l));
            holds = λ key. refl;
          };
          positive = p;
          cache = Cache.Reads.init-IsValid cache_capacity q;
          agrees = λ k v g n.
              absurd
                (cc (g, Cache.Reads.get-init {K = Str × Str} {V = V} cache_capacity (name, k)));
        },
        λ key. ap (λ o. over o none) (empty key),
        λ m' im. absurd (cc im),
        omega arith,
        size-init 10 m (omega arith) made,
        (let n = size-init 10 m (omega arith) made in omega (arith, n)),
      )
