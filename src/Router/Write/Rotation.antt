-- ===== src/Router/Write/Rotation.antt =====
-- The rotation: a pending flush is waited for, the active table becomes the immutable one, and the table
-- stands for the same map.
use cachy_db.Base.{
  ℕ, ◌≤◌, ◌+◌, ◌<◌, ◌≡◌, refl, sym, ap, subst, ◌∙◌, Bool, Bool-cases, true, false, inl, inr, Option,
  Option-cases, none, some, ok, leb, Str, arith,
}
use cachy_db.Base.Dict
use cachy_db.Base.Dict.{str_eq, get-put, beq_refl}
use cachy_db.Bytes.{Bytes}
use cachy_db.Json.{Json}
use cachy_db.BTree.MemTable
use cachy_db.BTree.MemTable.{MemTable}
use cachy_db.BTree.MemTable.Valid.{view}
use cachy_db.BTree.MemTable.Ops.{init-IsValid, size-init}
use cachy_db.Router.State.{TableState, Router, put_table, default_t}
use cachy_db.Router.State.Tables.{get_table_state_there, get-put_table}
use cachy_db.Router.View.{IsCoherent, Waits, table_view, view_or_none, present, over}
use cachy_db.Router.Disk.Sound.{page_count}
use cachy_db.Router.Flush.{flush_memtable_to_disk}
use cachy_db.Router.Flush.Refines.{
  flushed, flushed_router, flush_memtable_to_disk-Represents, flush_memtable_to_disk-none,
  flushed_there,
}
use cachy_db.Router.Write.{flush_done, run_flush, await_flush, rotate_table, rotated, trigger_flush}

-- The pages that a flush of the immutable table may take.
abbrev pub waiting : Option (MemTable Bytes) → ℕ
waiting none = 0
waiting (some m) = m.size + 1

module _ {V : Type 0} where
  -- The file has page ids left for a flush of the immutable table.
  abbrev pub Roomy : TableState V → Type 0
  Roomy t =
      (m : MemTable Bytes)
      → t.immutable_memtable ≡ some m
      → page_count t.handler + m.size + 1 < 4294967296

  -- The pages that the table has and that flushes of its records may take.
  abbrev pub budget : TableState V → ℕ
  budget t =
      page_count t.handler
      + waiting t.immutable_memtable
      + (t.active_memtable.size + t.active_memtable.size)

  pub budget-Roomy : (t : TableState V) → budget t < 4294967296 → Roomy t
  budget-Roomy t h m im = let w = ap waiting im in omega (arith, h, w)

module _ {V : Type 0} ⦃json : Json V⦄ where
  -- The state after a step that keeps the active table and the map, and leaves no immutable table.
  pub record Settled (r : Router V) (name : Str) (t : TableState V) (d : Str → Option V)
      (r' : Router V) : Type 0 where
    pub t' : TableState V
    pub d' : Str → Option V
    pub coherent : IsCoherent r' name t' d'
    pub empty : t'.immutable_memtable ≡ none
    pub active : t'.active_memtable ≡ t.active_memtable
    pub same : (j : Str) → table_view t' d' j ≡ table_view t d j
    pub limit : r'.max_memtable_size ≡ r.max_memtable_size
    pub spent : budget t' ≤ budget t

  abbrev idle : TableState V → TableState V
  idle t = record t { flush_pending = false }

  run_flush_lem :
      (r r1 : Router V) (name : Str) (t : TableState V)
      → flush_memtable_to_disk name r ≡ (r1, ok tt)
      → Dict.get name r1.tables ≡ some t
      → run_flush name r ≡ (put_table name (idle t) r1, ok tt)
  unfolding run_flush flush_done
  run_flush_lem r r1 name t f g = ap (flush_done name) f ∙ rw (flush_done, g) refl

  -- The pending flush of an immutable table is run.
  run_flush-Settled :
      (r : Router V) (name : Str) (t : TableState V) (d : Str → Option V) (m : MemTable Bytes)
      → IsCoherent r name t d
      → Roomy t
      → t.immutable_memtable ≡ some m
      → (r' : Router V) × (run_flush name r ≡ (r', ok tt)) × Settled r name t d r'
  run_flush-Settled r name t d m c room im =
      let (s, d', done, rep, same, grown) =
        flush_memtable_to_disk-Represents r name t d m c.opened c.table im (room m im) in
      let t1 : TableState V = flushed t s in
      let r1 : Router V = flushed_router r name t s in
      (
        put_table name (idle t1) r1,
        run_flush_lem r r1 name t1 done (flushed_there r name t s),
        record {
          t' = idle t1;
          d' = d';
          coherent = record {
            opened = get-put_table r1 name (idle t1);
            table = record {
              active = rep.active;
              immutable = tt;
              sound = rep.sound;
              synced = rep.synced;
              holds = rep.holds;
            };
            positive = c.positive;
            cache = c.cache;
            agrees = λ k v g n. same k ∙ c.agrees k v g n;
          };
          empty = refl;
          active = refl;
          same = same;
          limit = refl;
          spent = let w = ap waiting im in omega (arith, grown, w);
        },
      )

  -- A flush that finds nothing is waited for.
  run_flush_nothing :
      (r : Router V) (name : Str) (t : TableState V) (d : Str → Option V)
      → IsCoherent r name t d
      → t.immutable_memtable ≡ none
      → (r' : Router V) × (run_flush name r ≡ (r', ok tt)) × Settled r name t d r'
  run_flush_nothing r name t d c im =
      let r1 : Router V = record r { flushes_ended = r.flushes_ended + 1 } in
      let rep = c.table in
      (
        put_table name (idle t) r1,
        run_flush_lem r r1 name t (flush_memtable_to_disk-none r name t c.opened im) c.opened,
        record {
          t' = idle t;
          d' = d;
          coherent = record {
            opened = get-put_table r1 name (idle t);
            table = record {
              active = rep.active;
              immutable = subst (λ o. Waits V o false) (sym im) tt;
              sound = rep.sound;
              synced = rep.synced;
              holds = rep.holds;
            };
            positive = c.positive;
            cache = c.cache;
            agrees = c.agrees;
          };
          empty = im;
          active = refl;
          same = λ j. refl;
          limit = refl;
          spent = omega arith;
        },
      )

  await_flush_lem :
      (r : Router V) (name : Str) (t : TableState V) (b : Bool)
      → Dict.get name r.tables ≡ some t
      → t.flush_pending ≡ b
      → await_flush name r ≡ elim b [ true ↦ run_flush name r | false ↦ (r, ok tt) ]
  unfolding await_flush
  await_flush_lem r name t b o p = rw (await_flush, o, p) refl

  -- Waiting for the flush of a table leaves no immutable table and the same map.
  pub await_flush-Settled :
      (r : Router V) (name : Str) (t : TableState V) (d : Str → Option V)
      → IsCoherent r name t d
      → Roomy t
      → (r' : Router V) × (await_flush name r ≡ (r', ok tt)) × Settled r name t d r'
  await_flush-Settled r name t d c room = elim (Option-cases t.immutable_memtable) [
    | inr (m, im) ↦
        let (packs, pos, pending) = subst (λ o. Waits V o t.flush_pending) im c.table.immutable in
        let (r', done, s) = run_flush-Settled r name t d m c room im in
        (r', await_flush_lem r name t true c.opened pending ∙ done, s)
    | inl im ↦ elim (Bool-cases t.flush_pending) [
      | inl pending ↦
          let (r', done, s) = run_flush_nothing r name t d c im in
          (r', await_flush_lem r name t true c.opened pending ∙ done, s)
      | inr none_pending ↦ (
        r,
        await_flush_lem r name t false c.opened none_pending,
        record {
          t' = t;
          d' = d;
          coherent = c;
          empty = im;
          active = refl;
          same = λ j. refl;
          limit = refl;
          spent = omega arith;
        },
      )
    ]
  ]

  rotate_table_lem :
      (r : Router V) (name : Str) (t : TableState V) (new : MemTable Bytes)
      → leb r.max_memtable_size t.active_memtable.size ≡ true
      → MemTable.init default_t ≡ ok new
      → rotate_table name t r ≡ (put_table name (rotated t new) r, ok tt)
  unfolding rotate_table
  rotate_table_lem r name t new full e = rw (rotate_table, full, e) refl

  -- The full active table becomes the immutable one.
  rotate_table-IsCoherent :
      (r : Router V) (name : Str) (t : TableState V) (d : Str → Option V)
      → IsCoherent r name t d
      → t.immutable_memtable ≡ none
      → leb r.max_memtable_size t.active_memtable.size ≡ true
      → (r' : Router V) × (t' : TableState V) × (rotate_table name t r ≡ (r', ok tt))
        × IsCoherent r' name t' d
        × ((j : Str) → table_view t' d j ≡ table_view t d j)
        × (budget t' ≤ budget t)
  rotate_table-IsCoherent r name t d c im full =
      let (new, made, valid, empty) = init-IsValid {V = Bytes} 10 (omega arith) in
      let t' = rotated t new in
      let rep = c.table in
      let pos = c.positive in
      let same : (j : Str) → table_view t' d j ≡ table_view t d j = λ j.
        ap (λ o. over o (over (view t.active_memtable j) (present (d j)))) (empty j)
        ∙ sym (
            ap (λ o. over (view t.active_memtable j) (over (view_or_none o j) (present (d j))))
              im) in
      (
        put_table name t' r,
        t',
        rotate_table_lem r name t new full made,
        record {
          opened = get-put_table r name t';
          table = record {
            active = record { valid = valid; packed = λ k p e. absurd (cc (e, empty k)) };
            immutable = (rep.active, ground (arith, pos, full), refl);
            sound = rep.sound;
            synced = rep.synced;
            holds = rep.holds;
          };
          positive = c.positive;
          cache = c.cache;
          agrees = λ k v g n. same k ∙ c.agrees k v g n;
        },
        same,
        (let n = size-init 10 new (omega arith) made in
            let big : 1 ≤ t.active_memtable.size = ground (arith, pos, full) in
            omega (arith, n, big)),
      )

  trigger_flush-false : (r : Router V) (name : Str) → trigger_flush name false r ≡ (r, ok tt)
  unfolding trigger_flush
  trigger_flush-false r name = refl

  trigger_flush_lem :
      (r r1 : Router V) (name : Str) (t : TableState V)
      → await_flush name r ≡ (r1, ok tt)
      → Dict.get name r1.tables ≡ some t
      → trigger_flush name true r ≡ rotate_table name t r1
  unfolding trigger_flush
  trigger_flush_lem r r1 name t a o = rw (trigger_flush, a, get_table_state_there r1 name t o) refl

  -- Once the size is tested, a pending flush is run to its end if need be, and the table stands for the
  -- same map.
  pub trigger_flush-IsCoherent :
      (r : Router V) (name : Str) (t : TableState V) (d : Str → Option V)
      → IsCoherent r name t d
      → Roomy t
      → (r' : Router V) × (t' : TableState V) × (d' : Str → Option V) × (trigger_flush name
            (leb r.max_memtable_size t.active_memtable.size)
            r
          ≡ (r', ok tt))
        × IsCoherent r' name t' d'
        × ((j : Str) → table_view t' d' j ≡ table_view t d j)
        × (budget t' ≤ budget t)
  trigger_flush-IsCoherent r name t d c room =
      elim (Bool-cases (leb r.max_memtable_size t.active_memtable.size)) [
        | inr small ↦ (
          r,
          t,
          d,
          ap (λ b. trigger_flush name b r) small ∙ trigger_flush-false r name,
          c,
          λ j. refl,
          omega arith,
        )
        | inl full ↦
            let (r1, waited, s) = await_flush-Settled r name t d c room in
            let act = s.active in
            let lim = s.limit in
            let still : leb r1.max_memtable_size s.t'.active_memtable.size ≡ true =
              rw (lim, act) full in
            let (r2, t2, done, c2, same, spent) =
              rotate_table-IsCoherent r1 name s.t' s.d' s.coherent s.empty still in
            (
              r2,
              t2,
              s.d',
              ap (λ b. trigger_flush name b r) full
                  ∙ (trigger_flush_lem r r1 name s.t' waited s.coherent.opened ∙ done),
              c2,
              λ j. same j ∙ s.same j,
              (let before = s.spent in omega (arith, spent, before)),
            )
      ]
