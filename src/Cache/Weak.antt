-- ===== src/Cache/Weak.antt =====
-- What the cache holds after a `put`, whether or not an entry was evicted.
use cachy_db.Base.{
  ◌≡◌, ◌⊎◌, inl, inr, Bool-cases, false, ◌||◌, not, some, ok, leb, length, is_some, arith,
}
use cachy_db.Base.Dict
use cachy_db.Base.Dict.{Eq}
use cachy_db.Cache.{Cache, put}
use cachy_db.Cache.Valid.{IsValid}
use cachy_db.Cache.Put.{put-lookup, put-evicts}

module _ {ℓ} {K V : Type ℓ} ⦃e : Eq K⦄ where
  -- On a valid cache `put` succeeds, and each value that is held then is the new one or was held.
  pub put-held :
      (c : Cache K V) (key : K) (value : V)
      → IsValid c
      → (c' : Cache K V) × (put c key value ≡ ok c')
        × IsValid c'
        × ((k : K) (v : V)
            → Dict.get k c'.cache ≡ some v
            → ((k ≡ key) × (v ≡ value)) ⊎ ((e.beq k key ≡ false) × (Dict.get k c.cache ≡ some v)))
  put-held c key value valid =
      elim (Bool-cases (is_some (Dict.get key c.cache) || not (leb c.capacity (length c.cache)))) [
        | inl room ↦
            let (c', done, v', cap, look) = put-lookup c key value valid room in
            (
              c',
              done,
              v',
              λ k v h. elim (Bool-cases (e.beq k key)) [
                | inl eq ↦ inl ((e.beq_iff k key).0 eq, ground (arith, look k, h, eq))
                | inr ne ↦ inr (ne, ground (arith, look k, h, ne))
              ],
            )
        | inr none_left ↦
            let b = valid.bounded in
            let (c', victim, rest, done, v', w, look) =
              put-evicts c key value valid (ground (arith, none_left))
                (ground (arith, none_left, b)) in
            (
              c',
              done,
              v',
              λ k v h. elim (Bool-cases (e.beq k key)) [
                | inl eq ↦ inl ((e.beq_iff k key).0 eq, ground (arith, look k, h, eq))
                | inr ne ↦ elim (Bool-cases (e.beq k victim)) [
                  | inl out ↦ absurd (ground (arith, look k, h, ne, out))
                  | inr kept ↦ inr (ne, ground (arith, look k, h, ne, kept))
                ]
              ],
            )
      ]
