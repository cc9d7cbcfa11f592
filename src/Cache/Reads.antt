-- ===== src/Cache/Reads.antt =====
-- `get`, `invalidate`, `clear` and the constructor: none raises on a valid cache.
use cachy_db.Base.{
  ℕ, ◌+◌, ◌<◌, ◌≡◌, refl, ◌∙◌, true, ◌&&◌, Option, none, some, length, is_some, ok, if◌then◌else◌,
  arith, Bool-cases, inl, inr,
}
use cachy_db.Base.Dict
use cachy_db.Base.Dict.{
  Eq, mem, Distinct, Unique, append_key, remove_key, mem-append_key, mem-remove_key,
  append_key-Distinct, remove_key-Distinct, get-put, put-Unique, length-put, beq_refl, get-remove,
  remove-Unique, length-remove,
}
use cachy_db.Cache.{Cache, update, get, invalidate, init, clear}
use cachy_db.Cache.Valid.{IsValid}
use cachy_db.Cache.Bump.{bumped, bump_lem, is_some_value, is_some-none}

-- How often a key has been used; 0 for a key that is not there.
abbrev pub uses : Option ℕ → ℕ
uses none = 0
uses (some f) = f

module _ {ℓ} {K V : Type ℓ} ⦃e : Eq K⦄ where
  -- `get` on a valid cache never raises. It returns what the cache holds for the key, keeps every
  -- entry and the invariant, and counts one more use of exactly the key that it found.
  pub get-lookup :
      (c : Cache K V) (key : K)
      → IsValid c
      → (c' : Cache K V) × (get c key ≡ ok (c', Dict.get key c.cache))
        × IsValid c'
        × (c'.cache ≡ c.cache)
        × ((k : K)
            → uses (Dict.get k c'.frequencies) ≡ (
                if e.beq k key && is_some (Dict.get key c.cache)
                then uses (Dict.get k c.frequencies) + 1
                else uses (Dict.get k c.frequencies)))
  unfolding get
  get-lookup c key v = elim (Bool-cases (is_some (Dict.get key c.cache))) [
    | inl there ↦
        let (freq, h, done, valid) = bump_lem c key v there in
        let (w, held) = is_some_value (Dict.get key c.cache) there in
        (
          bumped c key freq,
          rw (held, done),
          valid,
          refl,
          λ k. ground (arith, there, h, get-put key k (freq + 1) c.frequencies, e.beq_iff k key),
        )
    | inr missing ↦
        (c, rw (is_some-none (Dict.get key c.cache) missing), v, refl, λ k. ground (arith, missing))
  ]

  abbrev dropped : Cache K V → K → ℕ → Cache K V
  dropped c key freq = record c {
    freq_groups = update c.freq_groups freq (remove_key key (c.freq_groups freq));
    cache = Dict.remove key c.cache;
    frequencies = Dict.remove key c.frequencies;
  }

  dropped-IsValid :
      (c : Cache K V) (key : K) (freq : ℕ)
      → IsValid c
      → is_some (Dict.get key c.cache) ≡ true
      → Dict.get key c.frequencies ≡ some freq
      → IsValid (dropped c key freq)
  dropped-IsValid c key freq v there h =
      let shorter : length (Dict.remove key c.cache) + 1 ≡ length c.cache =
        ground (arith, there, length-remove key c.cache v.unique) in
      record {
        positive = v.positive;
        bounded = omega (arith, v.bounded);
        unique = remove-Unique key c.cache v.unique;
        unique_freq = remove-Unique key c.frequencies v.unique_freq;
        same_keys = λ k.
            ground (arith, v.same_keys k, get-remove key k c.cache, get-remove key k c.frequencies);
        grouped = λ k f. ground (
          arith,
          h,
          v.grouped k f,
          mem-remove_key key k (c.freq_groups freq),
          get-remove key k c.frequencies,
          e.beq_iff k key,
        );
        distinct = λ f.
            ground
              (arith, v.distinct f, remove_key-Distinct key (c.freq_groups freq) (v.distinct freq));
        counted = λ k f g. ground (arith, v.counted k f, get-remove key k c.frequencies);
        least = λ full k f g. absurd (omega (arith, full, v.bounded, shorter));
        inhabited = λ full. absurd (omega (arith, full, v.bounded, shorter));
      }

  -- `invalidate` never raises on a valid cache, keeps the invariant, though it leaves `min_freq` as
  -- it was, and removes exactly the key.
  pub invalidate-lookup :
      (c : Cache K V) (key : K)
      → IsValid c
      → (c' : Cache K V) × (invalidate c key ≡ ok c')
        × IsValid c'
        × ((k : K) → Dict.get k c'.cache ≡ (if e.beq k key then none else Dict.get k c.cache))
  unfolding invalidate
  invalidate-lookup c key v = elim (Bool-cases (is_some (Dict.get key c.cache))) [
    | inl there ↦
        let (freq, h) = is_some_value (Dict.get key c.frequencies) (v.same_keys key ∙ there) in
        let m : mem key (c.freq_groups freq) ≡ true = ground (arith, h, v.grouped key freq) in
        (
          dropped c key freq,
          rw (there, h, m),
          dropped-IsValid c key freq v there h,
          λ k. get-remove key k c.cache,
        )
    | inr missing ↦ (
      c,
      rw missing,
      v,
      λ k. ground (arith, is_some-none (Dict.get key c.cache) missing, e.beq_iff k key),
    )
  ]

  -- A new cache with room for an entry is valid, and so is a cleared one.
  pub init-IsValid : (capacity : ℕ) → 0 < capacity → IsValid (init {K = K} {V = V} capacity)
  unfolding init mem Dict.get
  init-IsValid capacity h = record {
    positive = h;
    bounded = omega arith;
    unique = tt;
    unique_freq = tt;
    same_keys = λ k. refl;
    grouped = λ k f. refl;
    distinct = λ f. tt;
    counted = λ k f g. absurd (cc g);
    least = λ full k f g. absurd (cc g);
    inhabited = λ full. absurd (omega (arith, full));
  }

  pub clear-IsValid : (c : Cache K V) → IsValid c → IsValid (clear c)
  unfolding clear init
  clear-IsValid c v = init-IsValid c.capacity v.positive

  pub get-init :
      (capacity : ℕ) (key : K) → Dict.get key (init {K = K} {V = V} capacity).cache ≡ none
  unfolding init Dict.get
  get-init capacity key = refl
