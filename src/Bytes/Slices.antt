-- ===== src/Bytes/Slices.antt =====
-- Slices of bytes: what a write leaves for a read.
use cachy_db.Base.{
  ℕ, zero, suc, ◌+◌, ◌≤◌, ◌≡◌, refl, ap, sym, ◌∙◌, List, [], ◌∷◌, ◌++◌, arith, length, take, drop,
  length-append, length-drop, length-take,
}
use cachy_db.Bytes.{Bytes, read, write, zeros}

pub length-zeros : (n : ℕ) → length (zeros n) ≡ n
unfolding zeros
length-zeros zero = refl
length-zeros (suc n) = ap suc (length-zeros n)

pub take-length-append {ℓ} : {A : Type ℓ} (xs ys : List A) → take (length xs) (xs ++ ys) ≡ xs
take-length-append [] ys = refl
take-length-append (x ∷ xs) ys = ap (◌∷◌ x) (take-length-append xs ys)

pub drop-length-append {ℓ} : {A : Type ℓ} (xs ys : List A) → drop (length xs) (xs ++ ys) ≡ ys
drop-length-append [] ys = refl
drop-length-append (x ∷ xs) ys = drop-length-append xs ys

pub drop-nil {ℓ} : {A : Type ℓ} (n : ℕ) → drop {A = A} n [] ≡ []
drop-nil zero = refl
drop-nil (suc n) = refl

pub drop-drop {ℓ} : {A : Type ℓ} (a b : ℕ) (xs : List A) → drop a (drop b xs) ≡ drop (b + a) xs
drop-drop a zero xs = ap (λ k. drop k xs) (omega arith)
drop-drop a (suc b) [] = drop-nil a ∙ sym (drop-nil (suc b + a))
drop-drop a (suc b) (x ∷ xs) =
    let e : suc (b + a) ≡ suc b + a = omega arith in drop-drop a b xs ∙ ap (λ k. drop k (x ∷ xs)) e

pub length-write :
    (off : ℕ) (p l : Bytes) → off + length p ≤ length l → length (write off p l) ≡ length l
unfolding write
length-write zero p l h =
    omega (arith, length-append p (drop (length p) l), length-drop (length p) l)
length-write (suc off) p [] h = absurd (omega arith)
length-write (suc off) p (x ∷ l) h = omega (arith, length-write off p l (omega arith))

-- A read of what was just written.
pub read-write_self :
    (off : ℕ) (p l : Bytes) → off ≤ length l → read off (length p) (write off p l) ≡ p
unfolding read write
read-write_self zero p l h = take-length-append p (drop (length p) l)
read-write_self (suc off) p [] h = absurd (omega arith)
read-write_self (suc off) p (x ∷ l) h = read-write_self off p l (omega arith)

-- A write above what is read, and one below it.
pub read-write_above :
    (off a n : ℕ) (p l : Bytes)
    → a + n ≤ off
    → off ≤ length l
    → read a n (write off p l) ≡ read a n l
unfolding read write
read-write_above zero zero zero p l h k = refl
read-write_above zero zero (suc n) p l h k = absurd (omega arith)
read-write_above zero (suc a) n p l h k = absurd (omega arith)
read-write_above (suc off) a n p [] h k = absurd (omega arith)
read-write_above (suc off) zero zero p (x ∷ l) h k = refl
read-write_above (suc off) zero (suc n) p (x ∷ l) h k =
    ap (◌∷◌ x) (read-write_above off 0 n p l (omega arith) (omega arith))
read-write_above (suc off) (suc a) n p (x ∷ l) h k =
    read-write_above off a n p l (omega arith) (omega arith)

drop-append_tail :
    (a : ℕ) (p l : Bytes)
    → length p ≤ a
    → length p ≤ length l
    → drop a (p ++ drop (length p) l) ≡ drop a l
drop-append_tail a [] l h k = refl
drop-append_tail zero (x ∷ p) l h k = absurd (omega arith)
drop-append_tail (suc a) (x ∷ p) [] h k = absurd (omega arith)
drop-append_tail (suc a) (x ∷ p) (y ∷ l) h k = drop-append_tail a p l (omega arith) (omega arith)

pub read-write_below :
    (off a n : ℕ) (p l : Bytes)
    → off + length p ≤ a
    → off + length p ≤ length l
    → read a n (write off p l) ≡ read a n l
unfolding read write
read-write_below zero a n p l h k = ap (take n) (drop-append_tail a p l (omega arith) (omega arith))
read-write_below (suc off) a n p [] h k = absurd (omega arith)
read-write_below (suc off) zero n p (x ∷ l) h k = absurd (omega arith)
read-write_below (suc off) (suc a) n p (x ∷ l) h k =
    read-write_below off a n p l (omega arith) (omega arith)

pub length-read : (off n : ℕ) (b : Bytes) → off + n ≤ length b → length (read off n b) ≡ n
unfolding read
length-read off n b h = omega (arith, length-take n (drop off b), length-drop off b)

pub read_none : (off : ℕ) (b : Bytes) → read off 0 b ≡ zeros 0
unfolding read zeros
read_none off b = refl

pub read-append_inside : (p l : Bytes) (a n : ℕ) → a + n ≤ length p → read a n (p ++ l) ≡ read a n p
unfolding read
read-append_inside [] l zero zero h = refl
read-append_inside [] l zero (suc n) h = absurd (omega arith)
read-append_inside [] l (suc a) n h = absurd (omega arith)
read-append_inside (x ∷ p) l zero zero h = refl
read-append_inside (x ∷ p) l zero (suc n) h = ap (◌∷◌ x) (read-append_inside p l 0 n (omega arith))
read-append_inside (x ∷ p) l (suc a) n h = read-append_inside p l a n (omega arith)

-- A read inside what was just written.
pub read-write_inside :
    (off a n : ℕ) (p l : Bytes)
    → a + n ≤ length p
    → off ≤ length l
    → read (off + a) n (write off p l) ≡ read a n p
unfolding read write
read-write_inside zero a n p l h k =
    let e : 0 + a ≡ a = omega arith in
    ap (λ b. read b n (write 0 p l)) e ∙ read-append_inside p (drop (length p) l) a n h
read-write_inside (suc off) a n p [] h k = absurd (omega arith)
read-write_inside (suc off) a n p (x ∷ l) h k =
    let e : suc off + a ≡ suc (off + a) = omega arith in
    ap (λ b. read b n (write (suc off) p (x ∷ l))) e ∙ read-write_inside off a n p l h (omega arith)

drop-append_same :
    (p q l : Bytes)
    → length p ≡ length q
    → drop (length p) (q ++ drop (length q) l) ≡ drop (length p) l
drop-append_same p q l h = rw h (drop-length-append q (drop (length q) l))

-- A second write of the same length replaces the first.
pub write-write :
    (off : ℕ) (p q l : Bytes)
    → length p ≡ length q
    → off ≤ length l
    → write off p (write off q l) ≡ write off p l
unfolding write
write-write zero p q l h k = ap (◌++◌ p) (drop-append_same p q l h)
write-write (suc off) p q [] h k = absurd (omega arith)
write-write (suc off) p q (x ∷ l) h k = ap (◌∷◌ x) (write-write off p q l h (omega arith))

-- Reading from a list of bytes that starts, or does not start, there.
pub read-append_skip : (p l : Bytes) (a n : ℕ) → read (length p + a) n (p ++ l) ≡ read a n l
unfolding read
read-append_skip [] l a n = let e : 0 + a ≡ a = omega arith in ap (λ b. read b n l) e
read-append_skip (x ∷ p) l a n =
    let e : suc (length p) + a ≡ suc (length p + a) = omega arith in
    ap (λ b. read b n (x ∷ (p ++ l))) e ∙ read-append_skip p l a n

pub read-append_here : (p l : Bytes) → read 0 (length p) (p ++ l) ≡ p
unfolding read
read-append_here p l = take-length-append p l

-- A write that reaches the end.
pub length-write_end :
    (off : ℕ) (p l : Bytes)
    → off ≤ length l
    → length l ≤ off + length p
    → length (write off p l) ≡ off + length p
unfolding write
length-write_end zero p l h k =
    omega (arith, length-append p (drop (length p) l), length-drop (length p) l)
length-write_end (suc off) p [] h k = absurd (omega arith)
length-write_end (suc off) p (x ∷ l) h k =
    omega (arith, length-write_end off p l (omega arith) (omega arith))

-- A slice of a slice.
take-take {ℓ} : {A : Type ℓ} (n m : ℕ) (xs : List A) → n ≤ m → take n (take m xs) ≡ take n xs
take-take zero m xs h = refl
take-take (suc n) zero xs h = absurd (omega arith)
take-take (suc n) (suc m) [] h = refl
take-take (suc n) (suc m) (x ∷ xs) h = ap (◌∷◌ x) (take-take n m xs (omega arith))

read-take : (m a n : ℕ) (l : Bytes) → a + n ≤ m → take n (drop a (take m l)) ≡ take n (drop a l)
read-take m zero n l h = take-take n m l (omega arith)
read-take zero (suc a) n l h = absurd (omega arith)
read-take (suc m) (suc a) n [] h = refl
read-take (suc m) (suc a) n (x ∷ l) h = read-take m a n l (omega arith)

pub read-read : (b m a n : ℕ) (l : Bytes) → a + n ≤ m → read a n (read b m l) ≡ read (b + a) n l
unfolding read
read-read b m a n l h = read-take m a n (drop b l) h ∙ ap (take n) (drop-drop a b l)
