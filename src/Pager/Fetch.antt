-- ===== src/Pager/Fetch.antt =====
-- What `get_record` returns after an insertion and after a deletion.
use cachy_db.Base.{
  ℕ, zero, suc, ◌+◌, ◌≤◌, ◌<◌, ◌≡◌, ◌≢◌, refl, sym, ◌∙◌, ◌⊎◌, inl, inr, true, ◌==◌, Option, none,
  some, List, [], ◌∷◌, ◌++◌, length, get_elem?, get_elem?-append_here, set, arith, Bool-cases, ok,
  or_raise, value_error,
}
use cachy_db.Bytes.{Bytes}
use cachy_db.Pager.{Pager, insert_record, get_record, delete_record, has_space_for}
use cachy_db.Pager.Valid.{IsValid, view}
use cachy_db.Pager.View.{insert_record-view, delete_record-view, get_record-view}

get_elem?-append_other {ℓ} :
    {A : Type ℓ} (xs : List A) (x : A) (j : ℕ)
    → j ≢ length xs
    → get_elem? (xs ++ x ∷ []) j ≡ get_elem? xs j
get_elem?-append_other [] x zero d = absurd (d refl)
get_elem?-append_other [] x (suc j) d = refl
get_elem?-append_other (y ∷ xs) x zero d = refl
get_elem?-append_other (y ∷ xs) x (suc j) d =
    get_elem?-append_other xs x j (λ e. d (omega (arith, e)))

or_raise-ok {ℓ} : {A : Type ℓ} (o : Option A) (a : A) → or_raise value_error o ≡ ok a → o ≡ some a
or_raise-ok none a h = cc
or_raise-ok (some b) a h = cc

get_elem?-set_self {ℓ} :
    {A : Type ℓ} (xs : List A) (i : ℕ) (a : A) {b : A}
    → get_elem? xs i ≡ some b
    → get_elem? (set xs i a) i ≡ some a
get_elem?-set_self [] i a h = cc
get_elem?-set_self (x ∷ xs) zero a h = refl
get_elem?-set_self (x ∷ xs) (suc i) a h = get_elem?-set_self xs i a h

get_elem?-set_other {ℓ} :
    {A : Type ℓ} (xs : List A) (i j : ℕ) (a : A) → j ≢ i → get_elem? (set xs i a) j ≡ get_elem? xs j
get_elem?-set_other [] i j a d = refl
get_elem?-set_other (x ∷ xs) zero zero a d = absurd (d refl)
get_elem?-set_other (x ∷ xs) zero (suc j) a d = refl
get_elem?-set_other (x ∷ xs) (suc i) zero a d = refl
get_elem?-set_other (x ∷ xs) (suc i) (suc j) a d =
    get_elem?-set_other xs i j a (λ e. d (omega (arith, e)))

module _ {M : Type 0} where
  -- After a payload that fits was inserted into a valid page, `get_record` returns it at the new slot
  -- id, and at any other id what it returned before, also when that is an error.
  pub get_record-insert_record :
      (p : Pager M) (payload : Bytes) (j : ℕ)
      → IsValid p
      → 0 < length payload
      → p.lower_offset + 4 + length payload ≤ p.upper_offset
      → (p' : Pager M) × (slot_id : ℕ) × (insert_record p payload ≡ ok (p', slot_id))
        × (get_record p' slot_id ≡ ok (some payload))
        × ((j ≡ slot_id) ⊎ (get_record p' j ≡ get_record p j))
  get_record-insert_record p payload j v n h =
      let room : has_space_for p (length payload) ≡ true = ground (arith, h) in
      let (p', done, valid, look) = insert_record-view p payload v n room in
      (
        p',
        length (view p),
        done,
        get_record-view p' (length (view p))
            ∙ rw (look, get_elem?-append_here (view p) [] (some payload)) refl,
        elim (Bool-cases (j == length (view p))) [
          | inl e ↦ inl (ground (arith, e))
          | inr e ↦ inr (
              get_record-view p' j
              ∙ rw (look, get_elem?-append_other (view p) (some payload) j (ground (arith, e)))
                  (sym (get_record-view p j)))
        ],
      )

  -- After a record of a valid page was deleted, `get_record` returns None at its slot id, and at any
  -- other id what it returned before, also when that is an error.
  pub get_record-delete_record :
      (p : Pager M) (slot_id j : ℕ) (r : Bytes)
      → IsValid p
      → get_record p slot_id ≡ ok (some r)
      → (p' : Pager M) × (delete_record p slot_id ≡ ok p')
        × (get_record p' slot_id ≡ ok none)
        × ((j ≡ slot_id) ⊎ (get_record p' j ≡ get_record p j))
  get_record-delete_record p slot_id j r v g =
      let there : get_elem? (view p) slot_id ≡ some (some r) =
        or_raise-ok (get_elem? (view p) slot_id) (some r) (sym (get_record-view p slot_id) ∙ g) in
      let (p', done, valid, look) = delete_record-view p slot_id r v there in
      (
        p',
        done,
        get_record-view p' slot_id ∙ rw (look, get_elem?-set_self (view p) slot_id none there) refl,
        elim (Bool-cases (j == slot_id)) [
          | inl e ↦ inl (ground (arith, e))
          | inr e ↦ inr (
              get_record-view p' j
              ∙ rw (look, get_elem?-set_other (view p) slot_id j none (ground (arith, e)))
                  (sym (get_record-view p j)))
        ],
      )
