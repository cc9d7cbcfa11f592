-- ===== src/Cache/Put.antt =====
-- `put` on every branch: no branch raises on a valid cache, and what is evicted is least used.
use cachy_db.Base.{
  ℕ, ◌+◌, ◌≤◌, ◌<◌, ◌≡◌, refl, ◌∙◌, true, false, ◌||◌, none, some, List, [], ◌∷◌, length, is_some,
  ok, if◌then◌else◌, arith, Bool-cases, inl, inr, not, leb, sym,
}
use cachy_db.Base.Dict
use cachy_db.Base.Dict.{
  Eq, mem, Distinct, Unique, append_key, remove_key, mem-append_key, mem-remove_key,
  append_key-Distinct, remove_key-Distinct, get-put, put-Unique, length-put, beq_refl, get-remove,
  remove-Unique, length-remove,
}
use cachy_db.Cache.{Cache, is_nil, update, put, evict_from, make_room, add_new}
use cachy_db.Cache.Valid.{IsValid, at_freq}
use cachy_db.Cache.Bump.{bumped, bump_lem, is_some-none, append_key-not_nil}

module _ {ℓ} {K V : Type ℓ} ⦃e : Eq K⦄ where
  -- A write to a key that is there.
  rewritten-IsValid :
      (c : Cache K V) (key : K) (value : V)
      → IsValid c
      → is_some (Dict.get key c.cache) ≡ true
      → IsValid (record c { cache = Dict.put key value c.cache })
  rewritten-IsValid c key value v there =
      let same : length (Dict.put key value c.cache) ≡ length c.cache =
        ground (arith, length-put key value c.cache) in
      record {
        positive = v.positive;
        bounded = omega (arith, v.bounded);
        unique = put-Unique key value c.cache v.unique;
        unique_freq = v.unique_freq;
        same_keys =
            λ k. ground (arith, v.same_keys k, get-put key k value c.cache, e.beq_iff k key);
        grouped = v.grouped;
        distinct = v.distinct;
        counted = v.counted;
        least = λ full k f g. v.least (sym same ∙ full) k f g;
        inhabited = λ full. v.inhabited (sym same ∙ full);
      }

  abbrev evicted : Cache K V → K → List K → Cache K V
  evicted c victim rest = record c {
    freq_groups = update c.freq_groups c.min_freq rest;
    cache = Dict.remove victim c.cache;
    frequencies = Dict.remove victim c.frequencies;
  }

  -- The next key to go: the first of the least frequent ones.
  pub record IsVictim (c : Cache K V) (victim : K) (rest : List K) : Type ℓ where
    pub first : c.freq_groups c.min_freq ≡ victim ∷ rest
    pub used : Dict.get victim c.frequencies ≡ some c.min_freq
    pub held : is_some (Dict.get victim c.cache) ≡ true
    pub least : (k : K) (f : ℕ) → Dict.get k c.frequencies ≡ some f → c.min_freq ≤ f

  victim_lem :
      (c : Cache K V)
      → IsValid c
      → length c.cache ≡ c.capacity
      → (victim : K) × (rest : List K) × IsVictim c victim rest
  unfolding mem
  victim_lem c v full = of_group (c.freq_groups c.min_freq) refl (v.inhabited full)
    where
      of_group :
          (g : List K)
          → c.freq_groups c.min_freq ≡ g
          → is_nil (c.freq_groups c.min_freq) ≡ false
          → (victim : K) × (rest : List K) × IsVictim c victim rest
      of_group [] p n = absurd (cc (p, n))
      of_group (victim ∷ rest) p n =
          let m : mem victim (c.freq_groups c.min_freq) ≡ true = rw p (rw (beq_refl victim)) in
          let used : Dict.get victim c.frequencies ≡ some c.min_freq =
            ground (arith, m, v.grouped victim c.min_freq) in
          (
            victim,
            rest,
            record {
              first = p;
              used = used;
              held = ground (arith, used, v.same_keys victim);
              least = v.least full;
            },
          )

  evicted_grouped :
      (c : Cache K V) (victim : K) (rest : List K)
      → IsValid c
      → IsVictim c victim rest
      → (k : K) (f : ℕ)
      → mem k ((evicted c victim rest).freq_groups f)
        ≡ at_freq f (Dict.get k (evicted c victim rest).frequencies)
  unfolding mem
  evicted_grouped c victim rest v w k f =
      let m : mem k (c.freq_groups c.min_freq) ≡ (e.beq k victim || mem k rest) = rw w.first in
      let d : Distinct (victim ∷ rest) = rw w.first at (v.distinct c.min_freq) in
      ground (
        arith,
        m,
        d,
        w.used,
        v.grouped k f,
        v.grouped k c.min_freq,
        get-remove victim k c.frequencies,
        e.beq_iff k victim,
      )

  evicted-IsValid :
      (c : Cache K V) (victim : K) (rest : List K)
      → IsValid c
      → length c.cache ≡ c.capacity
      → IsVictim c victim rest
      → IsValid (evicted c victim rest) × (length (evicted c victim rest).cache < c.capacity)
  evicted-IsValid c victim rest v full w =
      let shorter : length (Dict.remove victim c.cache) + 1 ≡ length c.cache =
        ground (arith, w.held, length-remove victim c.cache v.unique) in
      let d : Distinct (victim ∷ rest) = rw w.first at (v.distinct c.min_freq) in
      (
        record {
          positive = v.positive;
          bounded = omega (arith, v.bounded);
          unique = remove-Unique victim c.cache v.unique;
          unique_freq = remove-Unique victim c.frequencies v.unique_freq;
          same_keys = λ k. ground (
            arith,
            v.same_keys k,
            get-remove victim k c.cache,
            get-remove victim k c.frequencies,
          );
          grouped = evicted_grouped c victim rest v w;
          distinct = λ f. ground (arith, v.distinct f, d);
          counted = λ k f g. ground (arith, v.counted k f, get-remove victim k c.frequencies);
          least = λ full' k f g. absurd (omega (arith, full, full', shorter));
          inhabited = λ full'. absurd (omega (arith, full, full', shorter));
        },
        omega (arith, full, shorter),
      )

  evict_lem :
      (c : Cache K V) (victim : K) (rest : List K)
      → IsValid c
      → IsVictim c victim rest
      → evict_from c (c.freq_groups c.min_freq) ≡ ok (evicted c victim rest)
  unfolding evict_from
  evict_lem c victim rest v w = rw (w.first, w.held, w.used)

  add_new-IsValid :
      (c : Cache K V) (key : K) (value : V)
      → IsValid c
      → is_some (Dict.get key c.cache) ≡ false
      → length c.cache < c.capacity
      → IsValid (add_new c key value)
  unfolding add_new
  add_new-IsValid c key value v missing room =
      let nothing : Dict.get key c.frequencies ≡ none =
        is_some-none (Dict.get key c.frequencies) (v.same_keys key ∙ missing) in
      record {
        positive = v.positive;
        bounded = ground (arith, length-put key value c.cache);
        unique = put-Unique key value c.cache v.unique;
        unique_freq = put-Unique key 1 c.frequencies v.unique_freq;
        same_keys = λ k.
            ground
              (arith, v.same_keys k, get-put key k value c.cache, get-put key k 1 c.frequencies);
        grouped = λ k f. ground (
          arith,
          nothing,
          v.grouped k f,
          mem-append_key key k (c.freq_groups 1),
          get-put key k 1 c.frequencies,
          e.beq_iff k key,
        );
        distinct = λ f.
            ground (arith, v.distinct f, append_key-Distinct key (c.freq_groups 1) (v.distinct 1));
        counted = λ k f g. ground (arith, v.counted k f, get-put key k 1 c.frequencies);
        least = λ full k f g. ground (arith, v.counted k f, get-put key k 1 c.frequencies);
        inhabited = λ full. append_key-not_nil key (c.freq_groups 1);
      }

  -- `put` of a key that is there, or with room for one more, never raises: it keeps the invariant,
  -- sets the key to the value, and keeps every other entry.
  pub put-lookup :
      (c : Cache K V) (key : K) (value : V)
      → IsValid c
      → (is_some (Dict.get key c.cache) || not (leb c.capacity (length c.cache))) ≡ true
      → (c' : Cache K V) × (put c key value ≡ ok c')
        × IsValid c'
        × (c'.capacity ≡ c.capacity)
        × ((k : K) → Dict.get k c'.cache ≡ (if e.beq k key then some value else Dict.get k c.cache))
  unfolding put make_room add_new
  put-lookup c key value v room =
      let positive : leb c.capacity 0 ≡ false = ground (arith, v.positive) in
      elim (Bool-cases (is_some (Dict.get key c.cache))) [
        | inl there ↦
            let c1 = record c { cache = Dict.put key value c.cache } in
            let v1 = rewritten-IsValid c key value v there in
            let there1 : is_some (Dict.get key c1.cache) ≡ true =
              ground (arith, get-put key key value c.cache, beq_refl key) in
            let (freq, h, done, valid) = bump_lem c1 key v1 there1 in
            (
              bumped c1 key freq,
              rw (positive, there, done),
              valid,
              refl,
              λ k. get-put key k value c.cache,
            )
        | inr missing ↦
            let space : leb c.capacity (length c.cache) ≡ false = ground (arith, room, missing) in
            (
              add_new c key value,
              rw (positive, missing, space),
              add_new-IsValid c key value v missing (ground (arith, space)),
              refl,
              λ k. get-put key k value c.cache,
            )
      ]

  -- `put` of a new key into a full cache never raises. It evicts one key, of the least number of
  -- uses of all keys and the one that reached it first, keeps the invariant, and keeps every other
  -- entry.
  pub put-evicts :
      (c : Cache K V) (key : K) (value : V)
      → IsValid c
      → is_some (Dict.get key c.cache) ≡ false
      → length c.cache ≡ c.capacity
      → (c' : Cache K V) × (victim : K) × (rest : List K) × (put c key value ≡ ok c')
        × IsValid c'
        × IsVictim c victim rest
        × ((k : K)
            → Dict.get k c'.cache ≡ (
                if e.beq k key
                then some value
                else if e.beq k victim
                then none
                else Dict.get k c.cache))
  unfolding put make_room
  put-evicts c key value v missing full =
      let (victim, rest, w) = victim_lem c v full in
      let c1 = evicted c victim rest in
      let (v1, room) = evicted-IsValid c victim rest v full w in
      let positive : leb c.capacity 0 ≡ false = ground (arith, v.positive) in
      let no_space : leb c.capacity (length c.cache) ≡ true = ground (arith, full) in
      let missing1 : is_some (Dict.get key c1.cache) ≡ false =
        ground (arith, missing, get-remove victim key c.cache) in
      (
        add_new c1 key value,
        victim,
        rest,
        rw (positive, missing, no_space, evict_lem c victim rest v w),
        add_new-IsValid c1 key value v1 missing1 room,
        w,
        λ k.
            unfold add_new in
            ground (arith, get-put key k value c1.cache, get-remove victim k c.cache),
      )
