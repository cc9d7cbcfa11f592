-- ===== src/Wal/Recovery/Older.antt =====
-- The entries that a log file had before a write.
use cachy_db.Base.{
  ℕ, zero, suc, ◌+◌, ◌*◌, ◌≤◌, ◌<◌, ◌≡◌, refl, ap, ◌∙◌, false, ltb, Bool-cases, inl, inr, List, [],
  ◌∷◌, ◌++◌, length, arith, some, none, Option,
}
use cachy_db.Bytes.{Bytes, read, from_big}
use cachy_db.Bytes.Slices.{length-read}
use cachy_db.Wal.{write_at}
use cachy_db.Wal.Recovery.{read_entries, read_payload, yield_record, entry_data, is_completed}

-- `g` has what `f` has from `a` on, for `n` bytes.
abbrev pub Same : Bytes → Bytes → ℕ → ℕ → Type 0
Same g f a n = read a n g ≡ read a n f

pub read-write_at_above :
    (off : ℕ) (p f : Bytes) (a n : ℕ)
    → a + n ≤ off
    → a + n ≤ length f
    → Same (write_at off p f) f a n
unfolding write_at read
read-write_at_above zero p f zero zero h k = refl
read-write_at_above zero p f zero (suc n) h k = absurd (omega arith)
read-write_at_above zero p f (suc a) n h k = absurd (omega arith)
read-write_at_above (suc off) p [] zero zero h k = refl
read-write_at_above (suc off) p [] zero (suc n) h k = absurd (omega arith)
read-write_at_above (suc off) p [] (suc a) n h k = absurd (omega arith)
read-write_at_above (suc off) p (x ∷ f) zero zero h k = refl
read-write_at_above (suc off) p (x ∷ f) zero (suc n) h k =
    ap (◌∷◌ x) (read-write_at_above off p f 0 n (omega arith) (omega arith))
read-write_at_above (suc off) p (x ∷ f) (suc a) n h k =
    read-write_at_above off p f a n (omega arith) (omega arith)

pub length-write_at : (off : ℕ) (p f : Bytes) → length f ≤ length (write_at off p f)
unfolding write_at
length-write_at zero [] f = omega arith
length-write_at zero (x ∷ p) [] = omega arith
length-write_at zero (x ∷ p) (y ∷ f) = omega (arith, length-write_at zero p f)
length-write_at (suc off) p [] = omega arith
length-write_at (suc off) p (x ∷ f) = omega (arith, length-write_at off p f)

-- An entry of `f` whose payload lies between `1250032` and `limit`, inside the file.
pub record EntryIn (f : Bytes) (limit i : ℕ) : Type 0 where
  pub start : 1250032 ≤ from_big (read 17 8 (entry_data f i))
  pub count :
      from_big (read 17 8 (entry_data f i))
        + 4
        + from_big (read (from_big (read 17 8 (entry_data f i))) 4 f)
      ≤ limit
  pub inside : limit ≤ length f

read_payload-Same :
    (f g : Bytes) (limit i : ℕ)
    → EntryIn f limit i
    → ((a n : ℕ) → 1250032 ≤ a → a + n ≤ limit → limit ≤ length f → Same g f a n)
    → read_payload g (entry_data f i) ≡ read_payload f (entry_data f i)
unfolding read_payload
read_payload-Same f g limit i v s =
    let off = from_big (read 17 8 (entry_data f i)) in
    let lower = v.start in
    let upper = v.count in
    let head = s off 4 lower (omega arith) v.inside in
    let body = s (off + 4) (from_big (read off 4 f)) (omega arith) (omega arith) v.inside in
    rw (head, body)

pub read_entries-Same :
    (f g : Bytes) (limit i n : ℕ)
    → ((j : ℕ) → j < i + n → EntryIn f limit j)
    → ((j : ℕ) → j < i + n → Same g f (32 + j * 25) 25)
    → ((a m : ℕ) → 1250032 ≤ a → a + m ≤ limit → limit ≤ length f → Same g f a m)
    → read_entries g i n ≡ read_entries f i n
unfolding read_entries
read_entries-Same f g limit i zero v e s = refl
read_entries-Same f g limit i (suc n) v e s =
    let entry = e i (omega arith) in
    let payload = read_payload-Same f g limit i (v i (omega arith)) s in
    let rest =
      read_entries-Same f g limit (suc i) n (λ j l. v j (omega arith)) (λ j l. e j (omega arith))
        s in
    rw (entry, payload, rest)

yield_record-append :
    (o : Option (ℕ × Bytes)) (xs ys : List (ℕ × Bytes))
    → yield_record o (xs ++ ys) ≡ yield_record o xs ++ ys
yield_record-append none xs ys = refl
yield_record-append (some r) xs ys = refl

step :
    (g : Bytes) (i n k : ℕ) (tail : List (ℕ × Bytes))
    → ltb (length (entry_data g i)) 25 ≡ false
    → read_entries g (suc i) k ≡ read_entries g (suc i) n ++ tail
    → read_entries g i (suc k) ≡ read_entries g i (suc n) ++ tail
unfolding read_entries
step g i n k tail whole ih = elim (Bool-cases (is_completed (entry_data g i))) [
  | inl c ↦ rw (whole, c, ih)
  | inr c ↦
      rw (whole, c, ih)
        (yield_record-append (read_payload g (entry_data g i)) (read_entries g (suc i) n) tail)
]

pub read_entries-append :
    (g : Bytes) (i n m : ℕ)
    → 32 + (i + n) * 25 ≤ length g
    → read_entries g i (n + m) ≡ read_entries g i n ++ read_entries g (i + n) m
unfolding read_entries
read_entries-append g i zero m h =
    let a : 0 + m ≡ m = omega arith in
    let b : i ≡ i + 0 = omega arith in ap (read_entries g i) a ∙ ap (λ k. read_entries g k m) b
read_entries-append g i (suc n) m h =
    let a : suc n + m ≡ suc (n + m) = omega arith in
    let b : suc i + n ≡ i + suc n = omega arith in
    let size : length (entry_data g i) ≡ 25 = length-read (32 + i * 25) 25 g (omega arith) in
    let whole : ltb (length (entry_data g i)) 25 ≡ false = ground (arith, size) in
    let ih : read_entries g (suc i) (n + m)
        ≡ read_entries g (suc i) n ++ read_entries g (i + suc n) m =
      read_entries-append g (suc i) n m (omega arith)
      ∙ ap (λ k. read_entries g (suc i) n ++ read_entries g k m) b in
    ap (read_entries g i) a ∙ step g i n (n + m) (read_entries g (i + suc n) m) whole ih
