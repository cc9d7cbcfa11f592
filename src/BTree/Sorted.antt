-- ===== src/BTree/Sorted.antt =====
-- Sorted lists of entries: the map that a tree stands for.
use cachy_db.Base.{
  ◌≡◌, refl, ap, true, false, Option, none, some, List, [], ◌∷◌, ◌++◌, arith, if◌then◌else◌, All,
  Order, eq_refl, eq_of_lt, eq_of_gt, lt_asymm, eq_of_not_lt, inl, inr, Bool-cases, All-append_left,
  All-append_right,
}

module _ {ℓ} {K V : Type ℓ} ⦃o : Order K⦄ where
  abbrev pub Below : K → List (K × V) → Type 0
  Below key = All (λ e. o.lt e.0 key ≡ true)

  abbrev pub Above : K → List (K × V) → Type 0
  Above key = All (λ e. o.lt key e.0 ≡ true)

  -- Strictly ascending by key.
  abbrev pub IsSorted : List (K × V) → Type 0
  IsSorted [] = Unit
  IsSorted (e ∷ es) = Above e.0 es × IsSorted es

  abbrev pub Absent : K → List (K × V) → Type 0
  Absent key = All (λ e. o.eq key e.0 ≡ false)

  -- The value of the first entry with the key.
  unfoldable pub lookup : K → List (K × V) → Option V
  lookup key [] = none
  lookup key (e ∷ es) = if o.eq key e.0 then some e.1 else lookup key es

  -- Last write wins: a new entry at its place in the order, or a new value for the key.
  unfoldable pub insert_sorted : K → V → List (K × V) → List (K × V)
  insert_sorted key v [] = (key, v) ∷ []
  insert_sorted key v (e ∷ es) =
      if o.lt e.0 key
      then e ∷ insert_sorted key v es
      else if o.lt key e.0
      then (key, v) ∷ e ∷ es
      else (key, v) ∷ es

  pub Above-trans : (a b : K) (es : List (K × V)) → o.lt a b ≡ true → Above b es → Above a es
  Above-trans a b [] h k = tt
  Above-trans a b (e ∷ es) h k = (o.lt_trans a b e.0 h k.0, Above-trans a b es h k.1)

  pub Absent-of_Above : (key : K) (es : List (K × V)) → Above key es → Absent key es
  Absent-of_Above key [] h = tt
  Absent-of_Above key (e ∷ es) h = (eq_of_lt key e.0 h.0, Absent-of_Above key es h.1)

  pub Absent-of_Below : (key : K) (es : List (K × V)) → Below key es → Absent key es
  Absent-of_Below key [] h = tt
  Absent-of_Below key (e ∷ es) h = (eq_of_gt key e.0 h.0, Absent-of_Below key es h.1)

  pub lookup_of_Absent : (key : K) (es : List (K × V)) → Absent key es → lookup key es ≡ none
  unfolding lookup
  lookup_of_Absent key [] h = refl
  lookup_of_Absent key (e ∷ es) h = rw (h.0) (lookup_of_Absent key es h.1)

  pub Absent-of_lookup : (key : K) (es : List (K × V)) → lookup key es ≡ none → Absent key es
  unfolding lookup
  Absent-of_lookup key [] h = tt
  Absent-of_lookup key (e ∷ es) h = (ground arith, Absent-of_lookup key es (ground arith))

  pub lookup-append_left :
      (key : K) (a b : List (K × V)) → Absent key b → lookup key (a ++ b) ≡ lookup key a
  unfolding lookup
  lookup-append_left key [] b h = lookup_of_Absent key b h
  lookup-append_left key (e ∷ a) b h = ground (arith, lookup-append_left key a b h)

  pub lookup-append_right :
      (key : K) (a b : List (K × V)) → Absent key a → lookup key (a ++ b) ≡ lookup key b
  unfolding lookup
  lookup-append_right key [] b h = refl
  lookup-append_right key (e ∷ a) b h = rw (h.0) (lookup-append_right key a b h.1)

  pub IsSorted-append_left : (a b : List (K × V)) → IsSorted (a ++ b) → IsSorted a
  IsSorted-append_left [] b h = tt
  IsSorted-append_left (e ∷ a) b h =
      (All-append_left (λ f. o.lt e.0 f.0 ≡ true) a b h.0, IsSorted-append_left a b h.1)

  pub IsSorted-append_right : (a b : List (K × V)) → IsSorted (a ++ b) → IsSorted b
  IsSorted-append_right [] b h = h
  IsSorted-append_right (e ∷ a) b h = IsSorted-append_right a b h.1

  -- What stands before an entry with a key up to `key` is below `key`.
  pub Below-of_IsSorted :
      (key k : K) (v : V) (a b : List (K × V))
      → IsSorted (a ++ ((k, v) ∷ b))
      → o.lt k key ≡ true
      → Below key a
  Below-of_IsSorted key k v [] b h p = tt
  Below-of_IsSorted key k v (e ∷ a) b h p = (
    o.lt_trans e.0 k key (All-append_right (λ f. o.lt e.0 f.0 ≡ true) a ((k, v) ∷ b) h.0).0 p,
    Below-of_IsSorted key k v a b h.1 p,
  )

  pub Below-of_IsSorted_self :
      (k : K) (v : V) (a b : List (K × V)) → IsSorted (a ++ ((k, v) ∷ b)) → Below k a
  Below-of_IsSorted_self k v [] b h = tt
  Below-of_IsSorted_self k v (e ∷ a) b h = (
    (All-append_right (λ f. o.lt e.0 f.0 ≡ true) a ((k, v) ∷ b) h.0).0,
    Below-of_IsSorted_self k v a b h.1,
  )

  -- `insert_sorted` passes what is below its key, and stops before what is above.
  pub insert_sorted-append_right :
      (key : K) (v : V) (a b : List (K × V))
      → Below key a
      → insert_sorted key v (a ++ b) ≡ a ++ insert_sorted key v b
  unfolding insert_sorted
  insert_sorted-append_right key v [] b h = refl
  insert_sorted-append_right key v (e ∷ a) b h =
      rw (h.0) (ap (◌∷◌ e) (insert_sorted-append_right key v a b h.1))

  pub insert_sorted-append_left :
      (key : K) (v : V) (a : List (K × V)) (e : K × V) (b : List (K × V))
      → o.lt key e.0 ≡ true
      → insert_sorted key v (a ++ (e ∷ b)) ≡ insert_sorted key v a ++ (e ∷ b)
  unfolding insert_sorted
  insert_sorted-append_left key v [] e b h = rw (lt_asymm key e.0 h, h)
  insert_sorted-append_left key v (f ∷ a) e b h =
      ground (arith, insert_sorted-append_left key v a e b h)

  pub insert_sorted_here :
      (key : K) (v w : V) (es : List (K × V)) → insert_sorted key v ((key, w) ∷ es) ≡ (key, v) ∷ es
  unfolding insert_sorted
  insert_sorted_here key v w es = rw (o.lt_irrefl key)

  Above-insert_sorted :
      (a key : K) (v : V) (es : List (K × V))
      → o.lt a key ≡ true
      → Above a es
      → Above a (insert_sorted key v es)
  unfolding insert_sorted
  Above-insert_sorted a key v [] p h = (p, tt)
  Above-insert_sorted a key v (e ∷ es) p h = ground (arith, Above-insert_sorted a key v es p h.1)

  -- Insertion keeps the order.
  pub insert_sorted-IsSorted :
      (key : K) (v : V) (es : List (K × V)) → IsSorted es → IsSorted (insert_sorted key v es)
  unfolding insert_sorted
  insert_sorted-IsSorted key v [] h = (tt, tt)
  insert_sorted-IsSorted key v (e ∷ es) h = elim (Bool-cases (o.lt e.0 key)) [
    | inl p ↦ rw p (Above-insert_sorted e.0 key v es p h.0, insert_sorted-IsSorted key v es h.1)
    | inr p ↦ elim (Bool-cases (o.lt key e.0)) [
      | inl q ↦ rw (p, q) ((q, Above-trans key e.0 es q h.0), h)
      | inr q ↦ let same : e.0 ≡ key = eq_of_not_lt e.0 key p q in rw (p, q, ← same) h
    ]
  ]

  -- It is the update of the map at one key.
  pub lookup-insert_sorted :
      (key j : K) (v : V) (es : List (K × V))
      → lookup j (insert_sorted key v es) ≡ (if o.eq j key then some v else lookup j es)
  unfolding lookup insert_sorted
  lookup-insert_sorted key j v [] = refl
  lookup-insert_sorted key j v (e ∷ es) = ground (
    arith,
    lookup-insert_sorted key j v es,
    o.eq_iff j key,
    o.eq_iff j e.0,
    o.lt_irrefl key,
    eq_of_not_lt e.0 key,
  )

  pub insert_sorted-cons :
      (key k : K) (v w : V) (es : List (K × V))
      → o.lt k key ≡ true
      → insert_sorted key v ((k, w) ∷ es) ≡ (k, w) ∷ insert_sorted key v es
  unfolding insert_sorted
  insert_sorted-cons key k v w es h = rw h

  pub lookup-cons_self : (key : K) (v : V) (es : List (K × V)) → lookup key ((key, v) ∷ es) ≡ some v
  unfolding lookup
  lookup-cons_self key v es = rw (eq_refl key)

  pub lookup-cons_ne :
      (key k : K) (w : V) (es : List (K × V))
      → o.eq key k ≡ false
      → lookup key ((k, w) ∷ es) ≡ lookup key es
  unfolding lookup
  lookup-cons_ne key k w es h = rw h
