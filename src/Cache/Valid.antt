-- ===== src/Cache/Valid.antt =====
-- The invariant of the LFU cache.
use cachy_db.Base.{ℕ, ◌≤◌, ◌<◌, ◌≡◌, Bool, false, ◌==◌, Option, none, some, length, is_some}
use cachy_db.Base.Dict
use cachy_db.Base.Dict.{Eq, mem, Distinct, Unique}
use cachy_db.Cache.{Cache, is_nil}

-- The recorded frequency is `f`.
abbrev pub at_freq : ℕ → Option ℕ → Bool
at_freq f none = false
at_freq f (some g) = f == g

module _ {ℓ} {K V : Type ℓ} ⦃e : Eq K⦄ where
  -- A key is in the group of its frequency and in no other, once; the two dicts have the same keys; frequencies count from 1;
  -- and if the cache is full, `min_freq` is the least frequency, with a key in its group.
  pub record IsValid (c : Cache K V) : Type ℓ where
    pub positive : 0 < c.capacity
    pub bounded : length c.cache ≤ c.capacity
    pub unique : Unique c.cache
    pub unique_freq : Unique c.frequencies
    pub same_keys : (k : K) → is_some (Dict.get k c.frequencies) ≡ is_some (Dict.get k c.cache)
    pub grouped : (k : K) (f : ℕ) → mem k (c.freq_groups f) ≡ at_freq f (Dict.get k c.frequencies)
    pub distinct : (f : ℕ) → Distinct (c.freq_groups f)
    pub counted : (k : K) (f : ℕ) → Dict.get k c.frequencies ≡ some f → 1 ≤ f
    pub least :
        length c.cache ≡ c.capacity
        → (k : K) (f : ℕ) → Dict.get k c.frequencies ≡ some f
        → c.min_freq ≤ f
    pub inhabited : length c.cache ≡ c.capacity → is_nil (c.freq_groups c.min_freq) ≡ false
