-- ===== src/Router/Tests.antt =====
-- Concrete runs of the router.
use cachy_db.Base.{
  ◌+◌, ◌≤◌, ◌≡◌, refl, sym, str_order, true, Option, none, some, List, [], ◌∷◌, ok, length, Str,
  eq_str, if◌then◌else◌, arith, ◌∙◌,
}
use cachy_db.Base.Dict
use cachy_db.Base.Dict.{str_eq, pair_eq}
use cachy_db.Cache.Reads.{get-init}
use cachy_db.Bytes.{Bytes}
use cachy_db.Json.Plain.{Plain, word, plain_json}
use cachy_db.BTree.Sorted.{lookup}
use cachy_db.BTree.MemTable.{MemTable}
use cachy_db.BTree.MemTable.Valid.{view}
use cachy_db.BTree.MemTable.Ops.{size-insert, in_order_traversal-IsSorted}
use cachy_db.Wal.{Wal}
use cachy_db.Router.Packing.Tests.{ann, bob, ann_record, pack-ann}
use cachy_db.Router.State.{TableState, Router, init, get_table_state, put_table}
use cachy_db.Router.State.Tables.{get-put_table}
use cachy_db.Router.Flush.{Flushing, flush_memtable_to_disk}
use cachy_db.Router.Flush.Refines.{flushed, flushed_router, flush_memtable_to_disk-Represents}
use cachy_db.Router.State.Fresh.{get_table_state-init, get_table_state-cache, init-cache}
use cachy_db.Router.View.{IsCoherent, Packs, Represents, table_view, present}
use cachy_db.Router.Disk.Sound.{page_count}
use cachy_db.Router.Flush.Running.{written}
use cachy_db.Router.Write.{set_internal}
use cachy_db.Router.Write.Rotation.{Roomy, budget}
use cachy_db.Router.Write.Refines.{set_internal-table_view, inserted-Represents}
use cachy_db.Router.Read.{get_internal}
use cachy_db.Router.Read.Refines.{get_internal-table_view}
use cachy_db.Router.Session.{get_internal-set_internal}

abbrev empty_wal : Wal
empty_wal = record { global_tx_id = 0; wal_buffer = []; ram_completed_tx = []; files = [] }

-- `"users"`
abbrev pub users : Str
users = 0x75 ∷ 0x73 ∷ 0x65 ∷ 0x72 ∷ 0x73 ∷ []

abbrev pub no_value : Str → Option Plain
no_value key = none

pub new_users :
    (r : Router Plain) × (r' : Router Plain) × (t : TableState Plain) × (init empty_wal
        (λ name. [])
        1
        4
      ≡ ok r)
    × (get_table_state users r ≡ (r', ok t))
    × IsCoherent r' users t no_value
    × ((key : Str) → table_view t no_value key ≡ none)
    × Roomy t
    × (page_count t.handler ≡ 0)
    × (t.active_memtable.size ≡ 0)
    × (budget t ≡ 0)
new_users =
    get_table_state-init empty_wal (λ name. []) 1 4 users (omega arith) (omega arith) refl refl

-- The new router, whose memtables take one record, and its table `users`.
abbrev pub users_router : Router Plain
users_router = new_users.1

abbrev pub users_table : TableState Plain
users_table = new_users.2

pub users-IsCoherent : IsCoherent users_router users users_table no_value
users-IsCoherent = new_users.5

pub users-budget : budget users_table ≡ 0
users-budget = new_users.10

pub users-Roomy : Roomy users_table
users-Roomy = new_users.7

-- Nothing is cached yet.
pub users-cache : (key : Str) → Dict.get (users, key) users_router.cache.cache ≡ none
users-cache key =
    let one = get_table_state-cache new_users.0 users_router users users_table new_users.4 in
    let two = init-cache new_users.0 empty_wal (λ name. []) 1 4 new_users.3 in
    rw (one ∙ two) (get-init {K = Str × Str} {V = Plain} 4 (users, key))

set_internal-table_view_example :
    (r' : Router Plain) × (t' : TableState Plain) × (d' : Str → Option Plain) × (set_internal users
        ann
        (word bob)
        users_router
      ≡ (r', ok tt))
    × IsCoherent r' users t' d'
    × ((j : Str)
        → table_view t' d' j
          ≡ (if eq_str j ann then written (word bob) else table_view users_table no_value j))
set_internal-table_view_example =
    set_internal-table_view users_router users ann (word bob) ann_record users_table no_value
      users-IsCoherent users-Roomy refl refl pack-ann (omega arith)

get_internal-table_view_example :
    (r' : Router Plain) × (t' : TableState Plain) × (value : Option Plain) × (get_internal users ann
        users_router
      ≡ (r', ok value))
    × (present value ≡ table_view users_table no_value ann)
    × IsCoherent r' users t' no_value
    × ((j : Str) → table_view t' no_value j ≡ table_view users_table no_value j)
get_internal-table_view_example =
    get_internal-table_view users_router users ann users_table no_value users-IsCoherent refl refl

get_internal-set_internal_example :
    (r1 : Router Plain) × (r2 : Router Plain) × (found : Option Plain) × (set_internal users ann
        (word bob)
        users_router
      ≡ (r1, ok tt))
    × (get_internal users ann r1 ≡ (r2, ok found))
    × (present found
        ≡ (if eq_str ann ann then written (word bob) else table_view users_table no_value ann))
get_internal-set_internal_example =
    get_internal-set_internal users_router users ann ann (word bob) ann_record users_table no_value
      users-IsCoherent users-Roomy refl refl refl pack-ann (omega arith)

lookup-none : (es : List (Str × Bytes)) → length es ≡ 0 → lookup ann es ≡ none
unfolding lookup
lookup-none [] h = refl
lookup-none (e ∷ es) h = absurd (omega (arith, h))

view_absent : view users_table.active_memtable ann ≡ none
view_absent =
    let (es, listed, sorted, count, look) =
      in_order_traversal-IsSorted users_table.active_memtable users-IsCoherent.table.active.valid in
    sym (look ann) ∙ lookup-none es (count ∙ new_users.9)

-- A memtable with one record.
one_record : (m : MemTable Bytes) × Packs Plain m × (m.size ≡ 1)
one_record =
    let (m, done, rep, look) =
      inserted-Represents users_table no_value ann (word bob) ann_record 0 users-IsCoherent.table
        refl pack-ann (omega arith) in
    let none_there = view_absent in
    let counted =
      size-insert users_table.active_memtable m ann ann_record users-IsCoherent.table.active.valid
        refl done in
    (m, rep.active, counted ∙ (rw none_there (omega (arith, new_users.9))))

-- The table with the record waiting for its flush, in the router.
abbrev waiting_table : TableState Plain
waiting_table = record users_table { immutable_memtable = some one_record.0; flush_pending = true }

waiting-Represents : Represents waiting_table no_value
waiting-Represents =
    let rep = users-IsCoherent.table in
    record {
      active = rep.active;
      immutable = (one_record.1, omega (arith, one_record.2), refl);
      sound = rep.sound;
      synced = rep.synced;
      holds = rep.holds;
    }

flush_memtable_to_disk-Represents_example :
    (s : Flushing (Option (Str × Plain))) × (d' : Str → Option Plain) × (flush_memtable_to_disk
        users
        (put_table users waiting_table users_router)
      ≡ (flushed_router (put_table users waiting_table users_router) users waiting_table s, ok tt))
    × Represents (flushed waiting_table s) d'
    × ((key : Str)
        → table_view (flushed waiting_table s) d' key ≡ table_view waiting_table no_value key)
    × (page_count s.handler ≤ page_count waiting_table.handler + one_record.0.size + 1)
flush_memtable_to_disk-Represents_example =
    flush_memtable_to_disk-Represents (put_table users waiting_table users_router) users
      waiting_table no_value one_record.0 (get-put_table users_router users waiting_table)
      waiting-Represents refl (omega (arith, new_users.8, one_record.2))
