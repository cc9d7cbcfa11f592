-- ===== src/Router/Read/Refines.antt =====
-- A lookup returns what the table stands for.
use cachy_db.Base.{
  ◌≡◌, refl, sym, ap, ◌∙◌, Bool, Bool-cases, true, false, inl, inr, Option, Option-cases, none,
  some, Result, ok, Str, arith,
}
use cachy_db.Base.Dict
use cachy_db.Base.Dict.{str_eq, pair_eq, nat_eq}
use cachy_db.Bytes.{Bytes}
use cachy_db.Json.{Json}
use cachy_db.BTree.MemTable.{MemTable, is_empty}
use cachy_db.BTree.MemTable.Valid.{view}
use cachy_db.BTree.MemTable.Ops.{contains-view, search-view}
use cachy_db.Cache
use cachy_db.Cache.Valid as CacheValid
use cachy_db.Cache.Reads.{get-lookup}
use cachy_db.Table.{TableHandler}
use cachy_db.Table.View.{stored_page}
use cachy_db.Router.Packing.{pack_record}
use cachy_db.Router.Packing.RoundTrip.{unpack_record-pack_record}
use cachy_db.Router.State.{TableState, Router, put_table}
use cachy_db.Router.State.Tables.{get_table_state_there, get-put_table}
use cachy_db.Router.View.{Packs, IsCoherent, Waits, table_view, view_or_none, present}
use cachy_db.Router.Disk.Sound.{Same, slot_in, Holds-Same, read_from_disk-Holds}
use cachy_db.Router.Flush.Running.{written}
use cachy_db.Router.Flush.Loop.{Fits, flushed_value-pack_record}
use cachy_db.Router.Write.Caching.{cache_put-IsCoherent}
use cachy_db.Router.Read.{
  find_packed, find_immutable, unpack_value, cache_hit, cache_unless_null, get_from_disk,
  get_from_table, cache_get, get_unless_cached, get_internal,
}

-- What `contains` and `search` find is what the table has.
pub find_packed-view :
    (V : Type 0) ⦃json : Json V⦄ (key : Str) (m : MemTable Bytes)
    → Packs V m
    → is_empty key ≡ false
    → find_packed key m ≡ ok (view m key)
unfolding find_packed
find_packed-view V key m p ne = elim (Option-cases (view m key)) [
  | inl e ↦ rw (find_packed, contains-view m key p.valid, ne, e) refl
  | inr (payload, e) ↦
      rw (find_packed, contains-view m key p.valid, ne, e, search-view m key p.valid, ne, e) refl
]

pub find_immutable-view :
    (V : Type 0) ⦃json : Json V⦄ (key : Str) (o : Option (MemTable Bytes)) (pending : Bool)
    → Waits V o pending
    → is_empty key ≡ false
    → find_immutable key o ≡ ok (view_or_none o key)
unfolding find_immutable
find_immutable-view V key none pending w ne = refl
find_immutable-view V key (some m) pending w ne = find_packed-view V key m w.0 ne

pub waiting-Fits :
    (V : Type 0) ⦃json : Json V⦄ (o : Option (MemTable Bytes)) (pending : Bool) (key : Str)
    (payload : Bytes)
    → Waits V o pending
    → view_or_none o key ≡ some payload
    → Fits V (key, payload)
waiting-Fits V none pending key payload w e = cc
waiting-Fits V (some m) pending key payload w e = w.0.packed key payload e

module _ {V : Type 0} ⦃json : Json V⦄ where
  -- A lookup's answer: the value that the table has, in a state that stands for the same map.
  pub record Answers (r : Router V) (name key : Str) (t : TableState V) (d : Str → Option V)
      (out : Router V × Result (Option V)) : Type 0 where
    pub r' : Router V
    pub t' : TableState V
    pub value : Option V
    pub returned : out ≡ (r', ok value)
    pub right : present value ≡ table_view t d key
    pub coherent : IsCoherent r' name t' d
    pub same : (j : Str) → table_view t' d j ≡ table_view t d j

  -- A value that the table has is cached unless it is `None`, and returned.
  cache_unless_null-Answers :
      (r : Router V) (name key : Str) (t : TableState V) (d : Str → Option V) (value : V)
      → IsCoherent r name t d
      → written value ≡ table_view t d key
      → Answers r name key t d (cache_unless_null name key value r)
  unfolding cache_unless_null
  cache_unless_null-Answers r name key t d value c h = elim (Bool-cases (json.is_null value)) [
    | inl null ↦ record {
      r' = r;
      t' = t;
      value = some value;
      returned = rw null refl;
      right = h;
      coherent = c;
      same = λ j. refl;
    }
    | inr keep ↦
        let (r', done, c') = cache_put-IsCoherent r name key t d value c h in
        record {
          r' = r';
          t' = t;
          value = some value;
          returned = rw (keep, done) refl;
          right = h;
          coherent = c';
          same = λ j. refl;
        }
  ]

  pub unpack_value-pack_record :
      (key : Str) (value : V) (payload : Bytes)
      → pack_record key value ≡ ok payload
      → unpack_value payload ≡ ok value
  unfolding unpack_value
  unpack_value-pack_record key value payload h =
      rw (unpack_value, unpack_record-pack_record key value payload h) refl

  -- The table after a lookup on its pages.
  pub disk-IsCoherent :
      (r : Router V) (name : Str) (t : TableState V) (d : Str → Option V)
      (h : TableHandler (Option (Str × V)))
      → IsCoherent r name t d
      → Same t.handler h
      → h.file ≡ t.handler.file
      → IsCoherent (put_table name (record t { handler = h }) r) name (record t { handler = h }) d
  disk-IsCoherent r name t d h c s f =
      let rep = c.table in
      record {
        opened = get-put_table r name (record t { handler = h });
        table = record {
          active = rep.active;
          immutable = rep.immutable;
          sound = s.sound;
          synced = λ i l k.
              ap (λ z. slot_in (stored_page {M = Option (Str × V)} z i) k) f
              ∙ (rep.synced i (omega (arith, l, s.count)) k ∙ sym (s.slots i k));
          holds = Holds-Same t.handler h t.disk_index d s rep.holds;
        };
        positive = c.positive;
        cache = c.cache;
        agrees = c.agrees;
      }

  -- The answer of a lookup in another state of the same table.
  Answers-moved :
      (r r1 : Router V) (name key : Str) (t t1 : TableState V) (d : Str → Option V)
      (out : Router V × Result (Option V))
      → ((j : Str) → table_view t1 d j ≡ table_view t d j)
      → Answers r1 name key t1 d out
      → Answers r name key t d out
  Answers-moved r r1 name key t t1 d out same a = record {
    r' = a.r';
    t' = a.t';
    value = a.value;
    returned = a.returned;
    right = a.right ∙ same key;
    coherent = a.coherent;
    same = λ j. a.same j ∙ same j;
  }

  get_from_disk-Answers :
      (r : Router V) (name key : Str) (t : TableState V) (d : Str → Option V)
      → IsCoherent r name t d
      → table_view t d key ≡ present (d key)
      → Answers r name key t d (get_from_disk name key t r)
  unfolding get_from_disk
  get_from_disk-Answers r name key t d c e =
      let rep = c.table in
      let (h, done, same, f) =
        read_from_disk-Holds t.handler t.disk_index d key rep.sound rep.holds in
      let t1 : TableState V = record t { handler = h } in
      let r1 : Router V = put_table name t1 r in
      let c1 = disk-IsCoherent r name t d h c same f in
      elim (Option-cases (d key)) [
        | inl absent ↦ record {
          r' = r1;
          t' = t1;
          value = none;
          returned = rw (get_from_disk, done, absent) refl;
          right = sym (e ∙ ap present absent);
          coherent = c1;
          same = λ j. refl;
        }
        | inr (value, there) ↦
            let a =
              cache_unless_null-Answers r1 name key t1 d value c1 (sym (e ∙ ap present there)) in
            record {
              r' = a.r';
              t' = a.t';
              value = a.value;
              returned = rw (get_from_disk, done, there) a.returned;
              right = a.right;
              coherent = a.coherent;
              same = a.same;
            }
      ]

  get_from_table-Answers :
      (r : Router V) (name key : Str) (t : TableState V) (d : Str → Option V)
      → IsCoherent r name t d
      → is_empty key ≡ false
      → Answers r name key t d (get_from_table name key t r)
  unfolding get_from_table
  get_from_table-Answers r name key t d c ne =
      let rep = c.table in
      let act = find_packed-view V key t.active_memtable rep.active ne in
      let imm = find_immutable-view V key t.immutable_memtable t.flush_pending rep.immutable ne in
      elim (Option-cases (view t.active_memtable key)) [
        | inr (payload, e) ↦
            let (value, packed, small) = rep.active.packed key payload e in
            let u = unpack_value-pack_record key value payload packed in
            let w : written value ≡ table_view t d key =
              sym (rw e (flushed_value-pack_record key value payload packed)) in
            let (r', done, c') = cache_put-IsCoherent r name key t d value c w in
            record {
              r' = r';
              t' = t;
              value = some value;
              returned = rw (get_from_table, act, e, u, done) refl;
              right = w;
              coherent = c';
              same = λ j. refl;
            }
        | inl e ↦ elim (Option-cases (view_or_none t.immutable_memtable key)) [
          | inr (payload, i) ↦
              let (value, packed, small) =
                waiting-Fits V t.immutable_memtable t.flush_pending key payload rep.immutable i in
              let u = unpack_value-pack_record key value payload packed in
              let w : written value ≡ table_view t d key =
                sym (rw (e, i) (flushed_value-pack_record key value payload packed)) in
              let a = cache_unless_null-Answers r name key t d value c w in
              record {
                r' = a.r';
                t' = a.t';
                value = a.value;
                returned = rw (get_from_table, act, e, imm, i, u) a.returned;
                right = a.right;
                coherent = a.coherent;
                same = a.same;
              }
          | inl i ↦
              let a = get_from_disk-Answers r name key t d c (rw (e, i) refl) in
              record {
                r' = a.r';
                t' = a.t';
                value = a.value;
                returned = rw (get_from_table, act, e, imm, i) a.returned;
                right = a.right;
                coherent = a.coherent;
                same = a.same;
              }
        ]
      ]

  get_internal_lem :
      (r : Router V) (name key : Str) (cache : Cache.Cache (Str × Str) V) (o : Option V)
      → is_empty name ≡ false
      → is_empty key ≡ false
      → Cache.get r.cache (name, key) ≡ ok (cache, o)
      → get_internal name key r ≡ get_unless_cached name key o (record r { cache = cache })
  unfolding get_internal cache_get
  get_internal_lem r name key cache o n1 n2 got = rw (get_internal, n1, n2, cache_get, got) refl

  cached-IsCoherent :
      (r : Router V) (name : Str) (t : TableState V) (d : Str → Option V)
      (cache : Cache.Cache (Str × Str) V)
      → IsCoherent r name t d
      → CacheValid.IsValid cache
      → cache.cache ≡ r.cache.cache
      → IsCoherent (record r { cache = cache }) name t d
  cached-IsCoherent r name t d cache c v e = record {
    opened = c.opened;
    table = c.table;
    positive = c.positive;
    cache = v;
    agrees = λ k w g n. c.agrees k w (sym (ap (Dict.get (name, k)) e) ∙ g) n;
  }

  -- A lookup of a key that is not empty in a table that the router has opened, with what the cache holds
  -- agreeing with the table: it succeeds and returns the value of the table for the key, where `None`
  -- stands for no value, the same agreement holds afterwards, and the table stands for the same map.
  pub get_internal-table_view :
      (r : Router V) (name key : Str) (t : TableState V) (d : Str → Option V)
      → IsCoherent r name t d
      → is_empty name ≡ false
      → is_empty key ≡ false
      → (r' : Router V) × (t' : TableState V) × (value : Option V) × (get_internal name key r
          ≡ (r', ok value))
        × (present value ≡ table_view t d key)
        × IsCoherent r' name t' d
        × ((j : Str) → table_view t' d j ≡ table_view t d j)
  unfolding get_unless_cached
  get_internal-table_view r name key t d c n1 n2 =
      let (cache, got, valid, same, uses) = get-lookup r.cache (name, key) c.cache in
      let r1 : Router V = record r { cache = cache } in
      let c1 = cached-IsCoherent r name t d cache c valid same in
      let step = get_internal_lem r name key cache (Dict.get (name, key) r.cache.cache) n1 n2 got in
      elim (Bool-cases (cache_hit (Dict.get (name, key) r.cache.cache))) [
        | inl hit ↦
            let (v, held, keep) = hit_lem (Dict.get (name, key) r.cache.cache) hit in
            (
              r1,
              t,
              Dict.get (name, key) r.cache.cache,
              step ∙ rw (get_unless_cached, hit) refl,
              rw (held, keep) (sym (c.agrees key v held keep)),
              c1,
              λ j. refl,
            )
        | inr miss ↦
            let a = get_from_table-Answers r1 name key t d c1 n2 in
            (
              a.r',
              a.t',
              a.value,
              step
                  ∙ rw (get_unless_cached, miss, get_table_state_there r1 name t c.opened)
                      a.returned,
              a.right,
              a.coherent,
              a.same,
            )
      ]
    where
      hit_lem :
          (o : Option V) → cache_hit o ≡ true → (v : V) × (o ≡ some v) × (json.is_null v ≡ false)
      hit_lem none h = cc
      hit_lem (some v) h = (v, refl, ground (arith, h))
