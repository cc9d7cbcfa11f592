-- ===== src/Router/Write/Caching.antt =====
-- A value that the table has may be cached.
use cachy_db.Base.{
  ◌<◌, eq_str, eq_str_refl, arith, ◌≡◌, refl, sym, ap, ◌∙◌, ok, Option, some, false, inl, inr, Str,
}
use cachy_db.Base.Dict
use cachy_db.Base.Dict.{str_eq, pair_eq}
use cachy_db.Json.{Json}
use cachy_db.Cache
use cachy_db.Cache.{Cache}
use cachy_db.Cache.Valid as CacheValid
use cachy_db.Cache.Weak.{put-held}
use cachy_db.Router.State.{TableState, Router}
use cachy_db.Router.View.{Represents, IsCoherent, table_view}
use cachy_db.Router.Flush.Running.{written}
use cachy_db.Router.Write.{cache_put}

module _ {V : Type 0} ⦃json : Json V⦄ where
  abbrev pub with_cache : Router V → Cache (Str × Str) V → Router V
  with_cache r c = record r { cache = c }

  cache_put_lem :
      (r : Router V) (name key : Str) (value : V) (c : Cache (Str × Str) V)
      → Cache.put r.cache (name, key) value ≡ ok c
      → cache_put name key value r ≡ (with_cache r c, ok tt)
  unfolding cache_put
  cache_put_lem r name key value c h = rw (cache_put, h) refl

  -- The new value is the table's, and so are the cached values of the other keys.
  pub cache_put-updates :
      (r : Router V) (name key : Str) (t : TableState V) (d : Str → Option V) (value : V)
      → Dict.get name r.tables ≡ some t
      → Represents t d
      → 0 < r.max_memtable_size
      → CacheValid.IsValid r.cache
      → ((k : Str) (v : V)
          → eq_str k key ≡ false
          → Dict.get (name, k) r.cache.cache ≡ some v
          → json.is_null v ≡ false
          → table_view t d k ≡ some v)
      → written value ≡ table_view t d key
      → (c : Cache (Str × Str) V) × (cache_put name key value r ≡ (with_cache r c, ok tt))
        × IsCoherent (with_cache r c) name t d
  cache_put-updates r name key t d value opened table positive valid agrees h =
      let (cache, done, valid', held) = put-held r.cache (name, key) value valid in
      (
        cache,
        cache_put_lem r name key value cache done,
        record {
          opened = opened;
          table = table;
          positive = positive;
          cache = valid';
          agrees = λ k v e n. elim (held (name, k) v e) [
            | inl (same, new) ↦
                let k_eq : k ≡ key = ap (λ (p : Str × Str). p.1) same in
                let w : written value ≡ some v = rw (← new, n) refl in
                ap (table_view t d) k_eq ∙ (sym h ∙ w)
            | inr (other, old) ↦ agrees k v (ground (arith, other, eq_str_refl name)) old n
          ];
        },
      )

  pub cache_put-IsCoherent :
      (r : Router V) (name key : Str) (t : TableState V) (d : Str → Option V) (value : V)
      → IsCoherent r name t d
      → written value ≡ table_view t d key
      → (r' : Router V) × (cache_put name key value r ≡ (r', ok tt)) × IsCoherent r' name t d
  cache_put-IsCoherent r name key t d value c h =
      let (cache, done, c') =
        cache_put-updates r name key t d value c.opened c.table c.positive c.cache
          (λ k v ne. c.agrees k v) h in
      (with_cache r cache, done, c')
