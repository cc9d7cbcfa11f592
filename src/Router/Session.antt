-- ===== src/Router/Session.antt =====
-- Writes and lookups of one table in a row.
use cachy_db.Base.{◌≤◌, ◌≡◌, ◌∙◌, false, Option, ok, length, Str, eq_str, if◌then◌else◌}
use cachy_db.Bytes.{Bytes}
use cachy_db.Json.{Json}
use cachy_db.BTree.MemTable.{is_empty}
use cachy_db.Router.Packing.{pack_record}
use cachy_db.Router.State.{TableState, Router}
use cachy_db.Router.View.{IsCoherent, table_view, present}
use cachy_db.Router.Flush.Running.{written}
use cachy_db.Router.Write.{set_internal}
use cachy_db.Router.Write.Rotation.{Roomy}
use cachy_db.Router.Write.Refines.{set_internal-table_view}
use cachy_db.Router.Read.{get_internal}
use cachy_db.Router.Read.Refines.{get_internal-table_view}

module _ {V : Type 0} ⦃json : Json V⦄ where
  -- After a write as in `set_internal-table_view`, which may run the flush that waits and hand the table
  -- over to the next one, a lookup of any key j that is not empty succeeds: it returns the value that
  -- was written if j is the key, and what the table had for j before the write otherwise. The value
  -- `None` reads as no value.
  pub get_internal-set_internal :
      (r : Router V) (name key j : Str) (value : V) (payload : Bytes) (t : TableState V)
      (d : Str → Option V)
      → IsCoherent r name t d
      → Roomy t
      → is_empty name ≡ false
      → is_empty key ≡ false
      → is_empty j ≡ false
      → pack_record key value ≡ ok payload
      → length payload ≤ 4072
      → (r1 : Router V) × (r2 : Router V) × (found : Option V) × (set_internal name key value r
          ≡ (r1, ok tt))
        × (get_internal name j r1 ≡ (r2, ok found))
        × (present found ≡ (if eq_str j key then written value else table_view t d j))
  get_internal-set_internal r name key j value payload t d c room n1 n2 n3 p fit =
      let (r1, t1, d1, done, c1, look) =
        set_internal-table_view r name key value payload t d c room n1 n2 p fit in
      let (r2, t2, found, got, right, c2, same) =
        get_internal-table_view r1 name j t1 d1 c1 n1 n3 in
      (r1, r2, found, done, got, right ∙ look j)
