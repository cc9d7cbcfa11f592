-- ===== src/Cache/Tests.antt =====
-- Runs of the LFU cache, and its theorems at concrete inputs.
use cachy_db.Base.{
  ℕ, ◌+◌, ◌≡◌, refl, ◌&&◌, ◌==◌, Option, none, some, List, [], ◌∷◌, Result, ok, arith,
  if◌then◌else◌, is_some, ◌>>=◌,
}
use cachy_db.Base.Dict
use cachy_db.Base.Dict.{Eq, nat_eq, mem, append_key, remove_key}
use cachy_db.Cache.{Cache, init, get, put, invalidate, bump, make_room, add_new}
use cachy_db.Cache.Valid.{IsValid}
use cachy_db.Cache.Put.{put-lookup, put-evicts, IsVictim}
use cachy_db.Cache.Reads.{uses, get-lookup, invalidate-lookup}

program : Unit {0}
unfolding init get put invalidate bump make_room add_new mem append_key remove_key Dict.get Dict.put
    Dict.remove
program = tt

abbrev empty : Cache ℕ ℕ
empty = init 2

abbrev run : Result (Cache ℕ ℕ × Option ℕ)
run = do c ← put empty 1 10; c ← put c 2 20; (c, r) ← get c 1; c ← put c 3 30; get c 2

-- 2 was used less often than 1, so it had to go.
run_evicts : (run >>= λ r. ok r.1) ≡ ok none
unfolding program
run_evicts = refl

-- Two entries, and 1 was used again.
abbrev full : Cache ℕ ℕ
full = record {
  capacity = 2;
  cache = (1, 10) ∷ (2, 20) ∷ [];
  frequencies = (1, 2) ∷ (2, 1) ∷ [];
  freq_groups = λ f. if f == 2 then 1 ∷ [] else if f == 1 then 2 ∷ [] else [];
  min_freq = 1;
}

full-IsValid : IsValid full
unfolding program
full-IsValid = record {
  positive = omega arith;
  bounded = omega arith;
  unique = (refl, (refl, tt));
  unique_freq = (refl, (refl, tt));
  same_keys = λ k. ground arith;
  grouped = λ k f. ground arith;
  distinct = λ f. ground arith;
  counted = λ k f g. ground arith;
  least = λ h k f g. ground arith;
  inhabited = λ h. refl;
}

get-lookup_example :
    (c' : Cache ℕ ℕ) × (get full 1 ≡ ok (c', Dict.get 1 full.cache))
    × IsValid c'
    × (c'.cache ≡ full.cache)
    × ((k : ℕ)
        → uses (Dict.get k c'.frequencies) ≡ (
            if k == 1 && is_some (Dict.get 1 full.cache)
            then uses (Dict.get k full.frequencies) + 1
            else uses (Dict.get k full.frequencies)))
get-lookup_example = get-lookup full 1 full-IsValid

put-lookup_example :
    (c' : Cache ℕ ℕ) × (put full 2 21 ≡ ok c')
    × IsValid c'
    × (c'.capacity ≡ 2)
    × ((k : ℕ) → Dict.get k c'.cache ≡ (if k == 2 then some 21 else Dict.get k full.cache))
unfolding program
put-lookup_example = put-lookup full 2 21 full-IsValid refl

put-evicts_example :
    (c' : Cache ℕ ℕ) × (victim : ℕ) × (rest : List ℕ) × (put full 3 30 ≡ ok c')
    × IsValid c'
    × IsVictim full victim rest
    × ((k : ℕ)
        → Dict.get k c'.cache
          ≡ (if k == 3 then some 30 else if k == victim then none else Dict.get k full.cache))
unfolding program
put-evicts_example = put-evicts full 3 30 full-IsValid refl refl

invalidate-lookup_example :
    (c' : Cache ℕ ℕ) × (invalidate full 2 ≡ ok c')
    × IsValid c'
    × ((k : ℕ) → Dict.get k c'.cache ≡ (if k == 2 then none else Dict.get k full.cache))
invalidate-lookup_example = invalidate-lookup full 2 full-IsValid
