-- ===== src/Router/View.antt =====
-- The map that a table of the router stands for: its active table over its immutable one over its
-- pages; and when they make sense.
use cachy_db.Base.{
  ℕ, ◌<◌, ◌≡◌, refl, Bool, true, false, Option, none, some, List, [], ◌∷◌, Str, str_order, eq_str,
  eq_str_iff, inl, inr, All, eq_refl, Bool-cases,
}
use cachy_db.Base.Dict
use cachy_db.Base.Dict.{str_eq, pair_eq}
use cachy_db.Bytes.{Bytes}
use cachy_db.Json.{Json}
use cachy_db.BTree.Sorted.{IsSorted, lookup, lookup_of_Absent, Absent-of_Above}
use cachy_db.BTree.MemTable.{MemTable}
use cachy_db.BTree.MemTable.Valid as MemValid
use cachy_db.BTree.MemTable.Valid.{view}
use cachy_db.Cache.Valid as CacheValid
use cachy_db.Router.State.{TableState, Router}
use cachy_db.Router.Disk.Sound.{page_count, IsSound, Holds}
use cachy_db.Router.Flush.Pages.{Synced}
use cachy_db.Router.Flush.Running.{written}
use cachy_db.Router.Flush.Loop.{Fits, flushed_value}

abbrev pub view_or_none : Option (MemTable Bytes) → Str → Option Bytes
view_or_none none key = none
view_or_none (some m) key = view m key

module _ {V : Type 0} ⦃json : Json V⦄ where
  -- `None` and the value `None` are the same to a caller.
  abbrev pub present : Option V → Option V
  present none = none
  present (some value) = written value

  -- A record in memory hides what lies under it.
  abbrev pub over : Option Bytes → Option V → Option V
  over none rest = rest
  over (some payload) rest = flushed_value payload

  -- The map of a table whose pages and index stand for `d`.
  abbrev pub table_view : TableState V → (Str → Option V) → Str → Option V
  table_view t d key =
      over (view t.active_memtable key)
        (over (view_or_none t.immutable_memtable key) (present (d key)))

module _ (V : Type 0) ⦃json : Json V⦄ where
  -- A valid memtable of packed records that fit into a page.
  pub record Packs (m : MemTable Bytes) : Type 0 where
    pub valid : MemValid.IsValid m
    pub packed : (key : Str) (payload : Bytes) → view m key ≡ some payload → Fits V (key, payload)

  -- An immutable table has a record, and waits for its flush.
  abbrev pub Waits : Option (MemTable Bytes) → Bool → Type 0
  Waits none pending = Unit
  Waits (some m) pending = Packs m × (0 < m.size) × (pending ≡ true)

module _ {V : Type 0} ⦃json : Json V⦄ where
  -- A table whose pages and index stand for `d`.
  pub record Represents (t : TableState V) (d : Str → Option V) : Type 0 where
    pub active : Packs V t.active_memtable
    pub immutable : Waits V t.immutable_memtable t.flush_pending
    pub sound : IsSound t.handler
    pub synced : (i : ℕ) → i < page_count t.handler → Synced t.handler i
    pub holds : Holds t.handler t.disk_index d

  -- The router has the table under the name, and the cache holds no other values than the table's.
  pub record IsCoherent (r : Router V) (name : Str) (t : TableState V) (d : Str → Option V)
      : Type 0 where
    pub opened : Dict.get name r.tables ≡ some t
    pub table : Represents t d
    pub positive : 0 < r.max_memtable_size
    pub cache : CacheValid.IsValid r.cache
    pub agrees :
        (key : Str) (value : V)
        → Dict.get (name, key) r.cache.cache ≡ some value
        → json.is_null value ≡ false
        → table_view t d key ≡ some value

-- What holds of every entry that a lookup finds holds of all entries.
pub All-of_lookup {κ} :
    (P : Str × Bytes → Type κ) (records : List (Str × Bytes))
    → IsSorted records
    → ((key : Str) (payload : Bytes) → lookup key records ≡ some payload → P (key, payload))
    → All P records
unfolding lookup
All-of_lookup P [] s h = tt
All-of_lookup P ((key, payload) ∷ records) s h = (
  h key payload (rw (eq_refl key) refl),
  All-of_lookup P records s.1 λ j p f. elim (Bool-cases (eq_str j key)) [
    | inl eq ↦ absurd (
        cc (
          f,
          (eq_str_iff j key).0 eq,
          lookup_of_Absent key records (Absent-of_Above key records s.0),
        ))
    | inr ne ↦ h j p (rw ne f)
  ],
)
