-- ===== src/Checkpoint/Safety.antt =====
-- A checkpoint loses no record that a recovery would replay.
use cachy_db.Base.{
  ℕ, zero, suc, ◌≡◌, refl, sym, ap, ◌∙◌, true, false, none, List, [], ◌∷◌, ◌++◌, leb, ◌==◌,
  if◌then◌else◌, is_some, arith, Bool-cases, inl, inr, All,
}
use cachy_db.Base.Dict
use cachy_db.Base.Dict.{nat_eq}
use cachy_db.Bytes.{Bytes, read}
use cachy_db.Wal.{wal_file_header_size}
use cachy_db.Wal.Recovery.{
  current_records, sort_files, insert_file, read_entries, read_file, read_files, read_wal,
}
use cachy_db.Checkpoint.{
  Directories, entries_completed, is_file_fully_completed, archive_file, archive_completed,
  all_but_last, run_checkpoint,
}

entries_completed-read_entries :
    (f : Bytes) (i n : ℕ) → entries_completed f i n ≡ true → read_entries f i n ≡ []
unfolding entries_completed read_entries
entries_completed-read_entries f i zero h = refl
entries_completed-read_entries f i (suc n) h =
    ground (arith, h, entries_completed-read_entries f (suc i) n)

read_entries_none : (f : Bytes) (n : ℕ) → (n == 0) ≡ true → read_entries f 0 n ≡ []
unfolding read_entries
read_entries_none f zero h = refl
read_entries_none f (suc n) h = absurd (ground arith)

-- Of a file that counts as fully completed, a recovery reads no record.
pub read_file-completed : (f : Bytes) → is_file_fully_completed f ≡ true → read_file f ≡ []
unfolding is_file_fully_completed read_file read_entries
read_file-completed f h =
    let n = current_records (read 0 wal_file_header_size f) in
    ground (arith, h, entries_completed-read_entries f 0 n, read_entries_none f n)

-- Files of the same number have the same content.
Agrees : ℕ × Bytes → ℕ × Bytes → Type 0
Agrees f g = (f.0 == g.0) ≡ true → g.1 ≡ f.1

Other : ℕ × Bytes → ℕ × Bytes → Type 0
Other f g = (f.0 == g.0) ≡ false

Other-get : (x : ℕ × Bytes) (d : List (ℕ × Bytes)) → Dict.get x.0 d ≡ none → All (Other x) d
unfolding Other Dict.get
Other-get x [] h = tt
Other-get x (y ∷ d) h = elim (Bool-cases (x.0 == y.0)) [
  | inl e ↦ ground (arith, e, h)
  | inr e ↦ (e, Other-get x d (ground (arith, e, h)))
]

Agrees-Other : (f g : ℕ × Bytes) → Other f g → Agrees f g × Agrees g f
unfolding Agrees Other
Agrees-Other f g o = (λ e. cc, λ e. ground (arith, e, o))

module _ (P Q : ℕ × Bytes → Type 0) where
  All-to : (xs : List (ℕ × Bytes)) → ((f : ℕ × Bytes) → P f → Q f) → All P xs → All Q xs
  All-to [] h v = tt
  All-to (x ∷ xs) h v = (h x v.0, All-to xs h v.1)

  All-both : (xs : List (ℕ × Bytes)) → All P xs → All Q xs → All (λ f. P f × Q f) xs
  All-both [] v w = tt
  All-both (x ∷ xs) v w = ((v.0, w.0), All-both xs v.1 w.1)

module _ (P : ℕ × Bytes → Type 0) where
  All-remove : (id : ℕ) (xs : List (ℕ × Bytes)) → All P xs → All P (Dict.remove id xs)
  unfolding Dict.remove
  All-remove id [] v = tt
  All-remove id (x ∷ xs) v = elim (Bool-cases (id == x.0)) [
    | inl e ↦ rw e (All-remove id xs v.1)
    | inr e ↦ rw e (v.0, All-remove id xs v.1)
  ]

  All-insert_file :
      (f : ℕ × Bytes) (xs : List (ℕ × Bytes)) → P f → All P xs → All P (insert_file f xs)
  unfolding insert_file
  All-insert_file f [] p v = (p, tt)
  All-insert_file f (x ∷ xs) p v = elim (Bool-cases (leb f.0 x.0)) [
    | inl e ↦ rw e (p, v)
    | inr e ↦ rw e (v.0, All-insert_file f xs p v.1)
  ]

  All-sort_files : (xs : List (ℕ × Bytes)) → All P xs → All P (sort_files xs)
  unfolding sort_files
  All-sort_files [] v = tt
  All-sort_files (x ∷ xs) v = All-insert_file x (sort_files xs) v.0 (All-sort_files xs v.1)

  All-all_but_last : (xs : List (ℕ × Bytes)) → All P xs → All P (all_but_last xs)
  unfolding all_but_last
  All-all_but_last [] v = tt
  All-all_but_last (x ∷ []) v = tt
  All-all_but_last (x ∷ y ∷ xs) v = (v.0, All-all_but_last (y ∷ xs) v.1)

Agrees-Unique :
    (files : List (ℕ × Bytes)) → Dict.Unique files → All (λ f. All (Agrees f) files) files
unfolding Agrees
Agrees-Unique [] u = tt
Agrees-Unique (x ∷ d) u =
    let other = Other-get x d u.0 in
    (
      (λ e. refl, All-to (Other x) (Agrees x) d (λ g o. (Agrees-Other x g o).0) other),
      All-to (λ f. All (Agrees f) d × Other x f) (λ f. All (Agrees f) (x ∷ d)) d
          (λ f h. ((Agrees-Other x f h.1).1, h.0))
          (All-both (λ f. All (Agrees f) d) (Other x) d (Agrees-Unique d u.1) other),
    )

-- The numbers ascend.
AtMost : ℕ × Bytes → ℕ × Bytes → Type 0
AtMost f g = leb f.0 g.0 ≡ true

Ascends : List (ℕ × Bytes) → Type 0
Ascends [] = Unit
Ascends (f ∷ files) = All (AtMost f) files × Ascends files

AtMost-trans : (f g h : ℕ × Bytes) → AtMost f g → AtMost g h → AtMost f h
unfolding AtMost
AtMost-trans f g h p q = ground (arith, p, q)

AtMost-not : (f g : ℕ × Bytes) → leb f.0 g.0 ≡ false → AtMost g f
unfolding AtMost
AtMost-not f g h = ground (arith, h)

at_most : (f g : ℕ × Bytes) → leb f.0 g.0 ≡ true → AtMost f g
unfolding AtMost
at_most f g e = e

insert_file-Ascends :
    (f : ℕ × Bytes) (xs : List (ℕ × Bytes)) → Ascends xs → Ascends (insert_file f xs)
unfolding insert_file Ascends
insert_file-Ascends f [] a = (tt, tt)
insert_file-Ascends f (x ∷ xs) a = elim (Bool-cases (leb f.0 x.0)) [
  | inl e ↦ rw e (
    (at_most f x e, All-to (AtMost x) (AtMost f) xs (λ g. AtMost-trans f x g (at_most f x e)) a.0),
    a,
  )
  | inr e ↦
      rw e (All-insert_file (AtMost x) f xs (AtMost-not f x e) a.0, insert_file-Ascends f xs a.1)
]

sort_files-Ascends : (xs : List (ℕ × Bytes)) → Ascends (sort_files xs)
unfolding sort_files Ascends
sort_files-Ascends [] = tt
sort_files-Ascends (x ∷ xs) = insert_file-Ascends x (sort_files xs) (sort_files-Ascends xs)

insert_file_first :
    (f : ℕ × Bytes) (xs : List (ℕ × Bytes)) → All (AtMost f) xs → insert_file f xs ≡ f ∷ xs
unfolding insert_file AtMost
insert_file_first f [] a = refl
insert_file_first f (x ∷ xs) a = rw (a.0)

remove-insert_file :
    (id : ℕ) (f : ℕ × Bytes) (xs : List (ℕ × Bytes))
    → Ascends xs
    → Dict.remove id (insert_file f xs)
      ≡ (if id == f.0 then Dict.remove id xs else insert_file f (Dict.remove id xs))
unfolding insert_file Dict.remove Ascends
remove-insert_file id f [] a = ground arith
remove-insert_file id f (x ∷ xs) a = elim (Bool-cases (leb f.0 x.0)) [
  | inl e ↦
      let below : All (AtMost f) (Dict.remove id (x ∷ xs)) = All-remove (AtMost f) id (x ∷ xs) (
        at_most f x e,
        All-to (AtMost x) (AtMost f) xs (λ g. AtMost-trans f x g (at_most f x e)) a.0,
      ) in
      let first = insert_file_first f (Dict.remove id (x ∷ xs)) below in ground (arith, e, first)
  | inr e ↦ ground (arith, e, remove-insert_file id f xs a.1)
]

remove-sort_files :
    (id : ℕ) (xs : List (ℕ × Bytes))
    → Dict.remove id (sort_files xs) ≡ sort_files (Dict.remove id xs)
unfolding sort_files Dict.remove
remove-sort_files id [] = refl
remove-sort_files id (x ∷ xs) = ground (
  arith,
  remove-sort_files id xs,
  remove-insert_file id x (sort_files xs) (sort_files-Ascends xs),
)

-- Files of one number that hold nothing to replay may go.
Silent : ℕ → ℕ × Bytes → Type 0
Silent id g = (id == g.0) ≡ true → read_file g.1 ≡ []

read_files-remove :
    (id : ℕ) (files : List (ℕ × Bytes))
    → All (Silent id) files
    → read_files (Dict.remove id files) ≡ read_files files
unfolding read_files Dict.remove Silent
read_files-remove id [] h = refl
read_files-remove id (g ∷ files) h = elim (Bool-cases (id == g.0)) [
  | inl e ↦ rw (e, h.0 e) (read_files-remove id files h.1)
  | inr e ↦ rw e (ap (◌++◌ (read_file g.1)) (read_files-remove id files h.1))
]

read_wal-remove :
    (id : ℕ) (files : List (ℕ × Bytes))
    → All (Silent id) files
    → read_wal (Dict.remove id files) ≡ read_wal files
unfolding read_wal
read_wal-remove id files h =
    ap read_files (sym (remove-sort_files id files))
    ∙ read_files-remove id (sort_files files) (All-sort_files (Silent id) files h)

Agrees-Silent : (f : ℕ × Bytes) → read_file f.1 ≡ [] → (g : ℕ × Bytes) → Agrees f g → Silent f.0 g
unfolding Agrees Silent
Agrees-Silent f r g a e = ap read_file (a e) ∙ r

archive_completed-read_wal :
    (sealed : List (ℕ × Bytes)) (d : Directories)
    → All (λ f. All (Agrees f) d.files) sealed
    → read_wal (archive_completed sealed d).files ≡ read_wal d.files
unfolding archive_completed archive_file
archive_completed-read_wal [] d h = refl
archive_completed-read_wal (f ∷ sealed) d h = elim (Bool-cases (is_file_fully_completed f.1)) [
  | inl e ↦ elim (Bool-cases (is_some (Dict.get f.0 d.archives))) [
    | inl there ↦
        let step : archive_completed (f ∷ sealed) d ≡ archive_completed sealed d =
          rw (e, there) refl in
        ap (λ x. read_wal x.files) step ∙ archive_completed-read_wal sealed d h.1
    | inr new ↦
        let d' : Directories = record {
          archives = Dict.put f.0 f.1 d.archives;
          files = Dict.remove f.0 d.files;
        } in
        let left : All (λ g. All (Agrees g) d'.files) sealed =
          All-to (λ g. All (Agrees g) d.files) (λ g. All (Agrees g) d'.files) sealed
            (λ g. All-remove (Agrees g) f.0 d.files) h.1 in
        let silent : All (Silent f.0) d.files =
          All-to (Agrees f) (Silent f.0) d.files (Agrees-Silent f (read_file-completed f.1 e))
            h.0 in
        let step : archive_completed (f ∷ sealed) d ≡ archive_completed sealed d' =
          rw (e, new) refl in
        ap (λ x. read_wal x.files) step
        ∙ (archive_completed-read_wal sealed d' left ∙ read_wal-remove f.0 d.files silent)
  ]
  | inr e ↦
      let step : archive_completed (f ∷ sealed) d ≡ archive_completed sealed d = rw e refl in
      ap (λ x. read_wal x.files) step ∙ archive_completed-read_wal sealed d h.1
]

-- A checkpoint on a directory whose files have different numbers changes nothing of what a recovery
-- would replay: it reads the same incomplete records, in the same order, before and after.
pub run_checkpoint-read_wal :
    (active_flushes : ℕ) (d : Directories)
    → Dict.Unique d.files
    → read_wal (run_checkpoint active_flushes d).files ≡ read_wal d.files
unfolding run_checkpoint
run_checkpoint-read_wal active_flushes d u =
    let same = Agrees-Unique d.files u in
    let sorted = All-sort_files (λ f. All (Agrees f) d.files) d.files same in
    let sealed = All-all_but_last (λ f. All (Agrees f) d.files) (sort_files d.files) sorted in
    ground (arith, archive_completed-read_wal (all_but_last (sort_files d.files)) d sealed)
