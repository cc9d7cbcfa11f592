-- ===== src/Cache/Bump.antt =====
-- `bump` does not raise on a key that is there, and keeps the invariant.
use cachy_db.Base.{
  ℕ, ◌+◌, ◌≤◌, ◌≡◌, refl, ◌∙◌, true, false, ◌==◌, ◌&&◌, Option, none, some, List, [], ◌∷◌, length,
  is_some, ok, if◌then◌else◌, arith,
}
use cachy_db.Base.Dict
use cachy_db.Base.Dict.{
  Eq, mem, Distinct, Unique, append_key, remove_key, mem-append_key, mem-remove_key,
  append_key-Distinct, remove_key-Distinct, get-put, put-Unique, length-put, beq_refl,
}
use cachy_db.Cache.{Cache, is_nil, update, bump}
use cachy_db.Cache.Valid.{IsValid, at_freq}

module _ {ℓ} {K : Type ℓ} ⦃e : Eq K⦄ where
  pub mem_of_nil : (k : K) (l : List K) → is_nil l ≡ true → mem k l ≡ false
  unfolding mem
  mem_of_nil k [] h = refl
  mem_of_nil k (x ∷ l) h = cc

  pub append_key-not_nil : (k : K) (l : List K) → is_nil (append_key k l) ≡ false
  unfolding append_key
  append_key-not_nil k [] = refl
  append_key-not_nil k (x ∷ l) = ground arith

pub is_some_value {ℓ} : {A : Type ℓ} (o : Option A) → is_some o ≡ true → (a : A) × (o ≡ some a)
is_some_value none h = cc
is_some_value (some a) h = (a, refl)

pub is_some-none {ℓ} : {A : Type ℓ} (o : Option A) → is_some o ≡ false → o ≡ none
is_some-none none h = refl
is_some-none (some a) h = cc

module _ {ℓ} {K V : Type ℓ} ⦃e : Eq K⦄ where
  -- The cache after `bump`, for a key of frequency `freq`.
  abbrev pub bumped : Cache K V → K → ℕ → Cache K V
  bumped c key freq =
      let groups = update c.freq_groups freq (remove_key key (c.freq_groups freq)) in
      record c {
        frequencies = Dict.put key (freq + 1) c.frequencies;
        min_freq =
            if is_nil (groups freq) && c.min_freq == freq then c.min_freq + 1 else c.min_freq;
        freq_groups = update groups (freq + 1) (append_key key (groups (freq + 1)));
      }

  pub bump-bumped :
      (c : Cache K V) (key : K) (freq : ℕ)
      → Dict.get key c.frequencies ≡ some freq
      → mem key (c.freq_groups freq) ≡ true
      → bump c key ≡ ok (bumped c key freq)
  unfolding bump
  bump-bumped c key freq h m = rw (h, m)

  module _ (c : Cache K V) (key : K) (freq : ℕ) (v : IsValid c)
      (h : Dict.get key c.frequencies ≡ some freq) where
    bumped_grouped :
        (k : K) (f : ℕ)
        → mem k ((bumped c key freq).freq_groups f)
          ≡ at_freq f (Dict.get k (bumped c key freq).frequencies)
    bumped_grouped k f = ground (
      arith,
      v.grouped k f,
      mem-remove_key key k (c.freq_groups freq),
      mem-append_key key k (c.freq_groups (freq + 1)),
      get-put key k (freq + 1) c.frequencies,
      e.beq_iff k key,
    )

    bumped-Distinct : (f : ℕ) → Distinct ((bumped c key freq).freq_groups f)
    bumped-Distinct f = ground (
      arith,
      v.distinct f,
      remove_key-Distinct key (c.freq_groups freq) (v.distinct freq),
      append_key-Distinct key (c.freq_groups (freq + 1)) (v.distinct (freq + 1)),
    )

    bumped_least :
        length c.cache ≡ c.capacity
        → (k : K) (f : ℕ) → Dict.get k (bumped c key freq).frequencies ≡ some f
        → (bumped c key freq).min_freq ≤ f
    bumped_least full k f g = ground (
      arith,
      v.least full key freq h,
      v.least full k f,
      v.grouped k freq,
      mem-remove_key key k (c.freq_groups freq),
      mem_of_nil k (remove_key key (c.freq_groups freq)),
      get-put key k (freq + 1) c.frequencies,
      e.beq_iff k key,
    )

    bumped_inhabited :
        length c.cache ≡ c.capacity
        → is_nil ((bumped c key freq).freq_groups (bumped c key freq).min_freq) ≡ false
    bumped_inhabited full = ground (
      arith,
      v.inhabited full,
      v.least full key freq h,
      append_key-not_nil key (c.freq_groups (freq + 1)),
    )

    pub bumped-IsValid : IsValid (bumped c key freq)
    bumped-IsValid = record {
      positive = v.positive;
      bounded = v.bounded;
      unique = v.unique;
      unique_freq = put-Unique key (freq + 1) c.frequencies v.unique_freq;
      same_keys = λ k.
          ground (arith, v.same_keys k, get-put key k (freq + 1) c.frequencies, e.beq_iff k key);
      grouped = bumped_grouped;
      distinct = bumped-Distinct;
      counted = λ k f g.
          ground (arith, v.counted k f, get-put key k (freq + 1) c.frequencies, e.beq_iff k key);
      least = bumped_least;
      inhabited = bumped_inhabited;
    }

  -- A key of the cache has a frequency, and `bump` returns.
  pub bump_lem :
      (c : Cache K V) (key : K)
      → IsValid c
      → is_some (Dict.get key c.cache) ≡ true
      → (freq : ℕ) × (Dict.get key c.frequencies ≡ some freq)
        × (bump c key ≡ ok (bumped c key freq))
        × IsValid (bumped c key freq)
  bump_lem c key v there =
      let (freq, h) = is_some_value (Dict.get key c.frequencies) (v.same_keys key ∙ there) in
      let m : mem key (c.freq_groups freq) ≡ true = ground (arith, v.grouped key freq) in
      (freq, h, bump-bumped c key freq h m, bumped-IsValid c key freq v h)
