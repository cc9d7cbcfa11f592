-- ===== src/Cache.antt =====
-- src/cachyDB/cache/cache.py: the LFU cache. A method runs under the lock, so it is one step; what
-- raises a KeyError returns `raise key_error`. The default groups of `freq_groups` are a function
-- from the frequency, empty where nothing was put.
pub mod Valid
mod Bump
pub mod Put
pub mod Weak
pub mod Reads
mod Tests
use cachy_db.Base.{
  ℕ, suc, ◌+◌, Bool, true, false, ◌&&◌, Option, none, some, List, [], ◌∷◌, Result, ok, raise, ◌>>=◌,
  ◌>>◌, raise_if, or_raise, key_error, leb, ◌==◌, not, if◌then◌else◌, length, is_some,
}
use cachy_db.Base.Dict
use cachy_db.Base.Dict.{Eq, mem, append_key, remove_key}

pub record Cache {ℓ} (K V : Type ℓ) : Type ℓ where
  pub capacity : ℕ
  pub cache : List (K × V)
  pub frequencies : List (K × ℕ)
  pub freq_groups : ℕ → List K
  pub min_freq : ℕ

-- `freq_groups[f] = group`
abbrev pub update {ℓ} : {A : Type ℓ} → (ℕ → A) → ℕ → A → ℕ → A
update g f group j = if j == f then group else g j

-- `not group`
abbrev pub is_nil {ℓ} : {A : Type ℓ} → List A → Bool
is_nil [] = true
is_nil (x ∷ xs) = false

module _ {ℓ} {K V : Type ℓ} where
  -- `Cache(capacity)`; a capacity below 0 behaves as 0.
  pub init : ℕ → Cache K V
  init capacity = record {
    capacity = capacity;
    cache = [];
    frequencies = [];
    freq_groups = λ f. [];
    min_freq = 0;
  }

  pub clear : Cache K V → Cache K V
  clear c = record c { cache = []; frequencies = []; freq_groups = λ f. []; min_freq = 0 }

module _ {ℓ} {K V : Type ℓ} ⦃e : Eq K⦄ where
  -- The frequency of a key that is there goes up by one: the part that `get` and `put` share.
  pub bump : Cache K V → K → Result (Cache K V)
  bump c key = do
    freq ← or_raise key_error (Dict.get key c.frequencies)
    raise_if (not (mem key (c.freq_groups freq))) key_error
    let groups = update c.freq_groups freq (remove_key key (c.freq_groups freq))
    ok (record c {
      frequencies = Dict.put key (freq + 1) c.frequencies;
      min_freq = if is_nil (groups freq) && c.min_freq == freq then c.min_freq + 1 else c.min_freq;
      freq_groups = update groups (freq + 1) (append_key key (groups (freq + 1)));
    })

  pub get : Cache K V → K → Result (Cache K V × Option V)
  get c key =
      let hit = (do
        c' ← bump c key
        value ← or_raise key_error (Dict.get key c.cache)
        ok (c', some value)) in
      if is_some (Dict.get key c.cache) then hit else ok (c, none)

  -- `popitem(last=False)` of the group of the least frequency, and the two `del`.
  pub evict_from : Cache K V → List K → Result (Cache K V)
  evict_from c [] = raise key_error
  evict_from c (evict_key ∷ rest) = do
    raise_if (not (is_some (Dict.get evict_key c.cache))) key_error
    raise_if (not (is_some (Dict.get evict_key c.frequencies))) key_error
    ok (record c {
      freq_groups = update c.freq_groups c.min_freq rest;
      cache = Dict.remove evict_key c.cache;
      frequencies = Dict.remove evict_key c.frequencies;
    })

  -- The eviction of `put`, if the cache is full.
  pub make_room : Cache K V → Result (Cache K V)
  unfolding evict_from
  make_room c =
      if leb c.capacity (length c.cache) then evict_from c (c.freq_groups c.min_freq) else ok c

  pub add_new : Cache K V → K → V → Cache K V
  add_new c key value = record c {
    cache = Dict.put key value c.cache;
    frequencies = Dict.put key 1 c.frequencies;
    min_freq = 1;
    freq_groups = update c.freq_groups 1 (append_key key (c.freq_groups 1));
  }

  pub put : Cache K V → K → V → Result (Cache K V)
  put c key value =
      let old = bump (record c { cache = Dict.put key value c.cache }) key in
      let new = (do c' ← make_room c; ok (add_new c' key value)) in
      if leb c.capacity 0 then ok c else if is_some (Dict.get key c.cache) then old else new

  pub invalidate : Cache K V → K → Result (Cache K V)
  invalidate c key =
      let drop = (do
        freq ← or_raise key_error (Dict.get key c.frequencies)
        raise_if (not (mem key (c.freq_groups freq))) key_error
        ok (record c {
          freq_groups = update c.freq_groups freq (remove_key key (c.freq_groups freq));
          cache = Dict.remove key c.cache;
          frequencies = Dict.remove key c.frequencies;
        })) in
      if is_some (Dict.get key c.cache) then drop else ok c
