-- ===== src/BTree/Places.antt =====
-- The place of a key among the keys of a node: the linear scan and the binary search find the same
-- one, and what is done there is done to the sorted entries.
use cachy_db.Base.{
  ℕ, zero, suc, ◌+◌, ◌/◌, ◌≤◌, ◌≡◌, refl, true, false, some, List, [], ◌∷◌, arith, length,
  get_elem?, All, Order, ltb, inl, inr, Bool-cases,
}
use cachy_db.BTree.{scan, found_at, below_at, bisect_loop, bisect_left}

module _ {ℓ} {K : Type ℓ} ⦃o : Order K⦄ where
  -- The keys before `j` are below `key`, and the next one is above it.
  abbrev pub Slot : List K → ℕ → K → Type 0
  Slot [] zero key = Unit
  Slot [] (suc j) key = ⊥
  Slot (k ∷ ks) zero key = o.lt key k ≡ true
  Slot (k ∷ ks) (suc j) key = (o.lt k key ≡ true) × Slot ks j key

  abbrev pub Ascending : List K → Type 0
  Ascending [] = Unit
  Ascending (k ∷ ks) = All (λ j. o.lt k j ≡ true) ks × Ascending ks

  pub scan-Slot :
      (ks : List K) (key : K) → found_at ks (scan ks key) key ≡ false → Slot ks (scan ks key) key
  unfolding scan found_at
  scan-Slot [] key h = tt
  scan-Slot (k ∷ ks) key h = elim (Bool-cases (o.lt k key)) [
    | inl p ↦ rw p (p, scan-Slot ks key (rw (p) at h))
    | inr p ↦ rw p (ground (arith, o.lt_total k key, o.eq_iff k key, o.eq_iff key k))
  ]

  pub get_elem?-scan :
      (ks : List K) (key : K)
      → found_at ks (scan ks key) key ≡ true
      → get_elem? ks (scan ks key) ≡ some key
  unfolding scan found_at
  get_elem?-scan [] key h = cc
  get_elem?-scan (k ∷ ks) key h = ground (arith, get_elem?-scan ks key, o.eq_iff key k)

  pub scan-le : (ks : List K) (key : K) → scan ks key ≤ length ks
  unfolding scan
  scan-le [] key = omega arith
  scan-le (k ∷ ks) key = ground (arith, scan-le ks key)

  not_below_at :
      (k : K) (ks : List K) (key : K) (mid : ℕ)
      → All (λ j. o.lt k j ≡ true) ks
      → o.lt k key ≡ false
      → below_at ks key mid ≡ false
  unfolding below_at
  not_below_at k [] key mid h p = refl
  not_below_at k (a ∷ ks) key zero h p = ground (arith, o.lt_trans k a key, h.0)
  not_below_at k (a ∷ ks) key (suc mid) h p = not_below_at k ks key mid h.1 p

  -- On ascending keys `keys[mid] < key` says on which side of the scan's answer `mid` is.
  below_at-scan :
      (ks : List K) (key : K) (mid : ℕ) → Ascending ks → below_at ks key mid ≡ ltb mid (scan ks key)
  unfolding below_at scan
  below_at-scan [] key mid h = ground arith
  below_at-scan (k ∷ ks) key zero h = ground arith
  below_at-scan (k ∷ ks) key (suc mid) h =
      ground (arith, below_at-scan ks key mid h.1, not_below_at k ks key mid h.0)

  bisect_loop-scan :
      (fuel : ℕ) (ks : List K) (key : K) (lo hi : ℕ)
      → Ascending ks
      → lo ≤ scan ks key
      → scan ks key ≤ hi
      → hi ≤ lo + fuel
      → bisect_loop fuel ks key lo hi ≡ scan ks key
  unfolding bisect_loop
  bisect_loop-scan zero ks key lo hi a p q r = omega arith
  bisect_loop-scan (suc fuel) ks key lo hi a p q r = ground (
    arith,
    below_at-scan ks key ((lo + hi) / 2) a,
    bisect_loop-scan fuel ks key ((lo + hi) / 2 + 1) hi a,
    bisect_loop-scan fuel ks key lo ((lo + hi) / 2) a,
  )

  -- The binary search of `_search` and `_insert_non_full` finds the index of the linear scan of
  -- `_find_node_and_index`, on ascending keys.
  pub bisect_left-eq-scan :
      (ks : List K) (key : K) → Ascending ks → bisect_left ks key ≡ scan ks key
  unfolding bisect_left
  bisect_left-eq-scan ks key a =
      bisect_loop-scan (length ks) ks key 0 (length ks) a (omega arith) (scan-le ks key)
        (omega arith)
