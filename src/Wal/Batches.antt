-- ===== src/Wal/Batches.antt =====
-- The split of the buffer by file.
use cachy_db.Base.{
  ℕ, ◌/◌, ◌≡◌, sym, ap, ◌∙◌, ◌==◌, ==_iff, Bool-cases, inl, inr, some, List, [], ◌∷◌, ◌++◌,
  if◌then◌else◌, append_assoc, append-nil,
}
use cachy_db.Base.Dict
use cachy_db.Base.Dict.{nat_eq, get-put}
use cachy_db.Bytes.{Bytes}
use cachy_db.Wal.Disk.{file_batches, or_nil}

-- The entries of a buffer that belong to a file, in the order of the buffer.
unfoldable pub of_file : ℕ → List (ℕ × Bytes) → List (ℕ × Bytes)
of_file file_id [] = []
of_file file_id (entry ∷ buffer) =
    let rest = of_file file_id buffer in if file_id == entry.0 / 50000 then entry ∷ rest else rest

-- Splitting a buffer adds to what each file has already exactly the entries of the buffer whose
-- transaction belongs to that file, in the order of the buffer; none is lost or put elsewhere.
pub file_batches-of_file :
    (file_id : ℕ) (buffer : List (ℕ × Bytes)) (batches : List (ℕ × List (ℕ × Bytes)))
    → or_nil (Dict.get file_id (file_batches buffer batches))
      ≡ or_nil (Dict.get file_id batches) ++ of_file file_id buffer
unfolding file_batches of_file
file_batches-of_file file_id [] batches = sym (append-nil (or_nil (Dict.get file_id batches)))
file_batches-of_file file_id (entry ∷ buffer) batches =
    let id = entry.0 / 50000 in
    let batch = or_nil (Dict.get id batches) ++ entry ∷ [] in
    let ih = file_batches-of_file file_id buffer (Dict.put id batch batches) in
    let found = get-put id file_id batch batches in
    elim (Bool-cases (file_id == id)) [
      | inl e ↦
          let same : file_id ≡ id = (==_iff file_id id).0 e in
          let now : Dict.get file_id (Dict.put id batch batches) ≡ some batch = rw (e) at found in
          let grown : or_nil (Dict.get file_id (Dict.put id batch batches))
              ≡ or_nil (Dict.get file_id batches) ++ entry ∷ [] =
            ap or_nil now ∙ ap (λ k. or_nil (Dict.get k batches) ++ entry ∷ []) (sym same) in
          rw e (
            ih
            ∙ (ap (λ l. l ++ of_file file_id buffer) grown
                ∙ append_assoc (or_nil (Dict.get file_id batches)) (entry ∷ [])
                    (of_file file_id buffer)))
      | inr e ↦
          let kept : Dict.get file_id (Dict.put id batch batches) ≡ Dict.get file_id batches =
            rw (e) at found in
          rw e (ih ∙ ap (λ o. or_nil o ++ of_file file_id buffer) kept)
    ]
