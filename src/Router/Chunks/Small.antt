-- ===== src/Router/Chunks/Small.antt =====
-- `set` and `get` of a value that is not large: it is stored as it is, once the old chunks are gone.
use cachy_db.Base.{
  if◌then◌else◌, eq_str, ℕ, ◌+◌, ◌<◌, ◌≤◌, ◌≡◌, refl, ap, ◌∙◌, Bool-cases, false, Option, none, inl,
  inr, ok, length, ltb, Str, arith,
}
use cachy_db.Bytes.{Bytes}
use cachy_db.Json.{Json}
use cachy_db.BTree.MemTable.{is_empty}
use cachy_db.Router.Packing.{pack_record, value_bytes}
use cachy_db.Router.State.{TableState, Router}
use cachy_db.Router.View.{IsCoherent, table_view, present}
use cachy_db.Router.Flush.Running.{written}
use cachy_db.Router.Write.{set_internal}
use cachy_db.Router.Write.Rotation.{budget, budget-Roomy}
use cachy_db.Router.Write.Refines.{set_internal-table_view}
use cachy_db.Router.Read.{get_internal}
use cachy_db.Router.Read.Refines.{get_internal-table_view}
use cachy_db.Router.Chunks.Cleaning.{
  is_chunk, Erasable, OldChunks, manifest_of-present, clean_up-Cleans,
}
use cachy_db.Router.Chunks.{
  Overflow, chunk_prefix, starts_with, manifest_of, clean_up, set_small, set_sized, set_plain, set,
  get_value, get,
}

module _ {V : Type 0} ⦃json : Json V⦄ (codec : Overflow V) where
  -- The JSON of a value has at most 2000 bytes.
  abbrev pub IsSmall : V → Type 0
  IsSmall value = (bytes : Bytes) × (value_bytes value ≡ ok bytes) × (length bytes ≤ 2000)

  set_small_lem :
      (r r1 : Router V) (name key : Str) (value : V)
      → clean_up codec name key r ≡ (r1, ok tt)
      → set_small codec name key value r ≡ set_internal name key value r1
  unfolding set_small
  set_small_lem r r1 name key value c = rw (set_small, c) refl

  set_lem :
      (r : Router V) (name key : Str) (value : V)
      → is_empty name ≡ false
      → is_empty key ≡ false
      → starts_with chunk_prefix key ≡ false
      → IsSmall value
      → set codec name key value r ≡ set_small codec name key value r
  unfolding set set_plain set_sized
  set_lem r name key value n1 n2 p (bytes, b, small) =
      let low : ltb 2000 (length bytes) ≡ false = ground (arith, small) in
      elim (Bool-cases (json.is_null value)) [
        | inl null ↦ rw (set, n1, n2, set_plain, p, null) refl
        | inr keep ↦ rw (set, n1, n2, set_plain, p, keep, b, set_sized, low) refl
      ]

  get_lem :
      (r r1 : Router V) (name key : Str) (o : Option V)
      → is_empty name ≡ false
      → is_empty key ≡ false
      → get_internal name key r ≡ (r1, ok o)
      → manifest_of codec o ≡ none
      → get codec name key r ≡ (r1, ok o)
  unfolding get get_value
  get_lem r r1 name key o n1 n2 g m = rw (get, n1, n2, g, get_value, m) refl

  -- What a write of a small value leaves: the map with the key set and the old chunks gone.
  pub record Replaces (name key : Str) (value : V) (n : ℕ) (t : TableState V) (d : Str → Option V)
      (r1 : Router V) : Type 0 where
    pub t1 : TableState V
    pub d1 : Str → Option V
    pub coherent : IsCoherent r1 name t1 d1
    pub view :
        (j : Str)
        → table_view t1 d1 j ≡ (
            if eq_str j key
            then written value
            else if is_chunk key 0 n j
            then none
            else table_view t d j)

  pub set-Replaces :
      (r : Router V) (name key : Str) (value : V) (payload : Bytes) (n : ℕ) (t : TableState V)
      (d : Str → Option V)
      → IsCoherent r name t d
      → budget t + (n + n) < 4294967296
      → is_empty name ≡ false
      → is_empty key ≡ false
      → starts_with chunk_prefix key ≡ false
      → pack_record key value ≡ ok payload
      → length payload ≤ 4072
      → IsSmall value
      → codec.as_manifest json.null ≡ none
      → OldChunks codec (table_view t d key) n
      → Erasable V key 0 n
      → (r1 : Router V) × (set codec name key value r ≡ (r1, ok tt))
        × Replaces name key value n t d r1
  set-Replaces r name key value payload n t d c room n1 n2 p packed fit small null old e =
      let (r', cleaned, s) = clean_up-Cleans codec r name key n t d c room n1 n2 null old e in
      let used = s.spent in
      let (r1, t1, d1, done, c1, look) =
        set_internal-table_view r' name key value payload s.t' s.d' s.coherent
          (budget-Roomy s.t' (omega (arith, room, used))) n1 n2 packed fit in
      (
        r1,
        set_lem r name key value n1 n2 p small ∙ (set_small_lem r r' name key value cleaned ∙ done),
        record {
          t1 = t1;
          d1 = d1;
          coherent = c1;
          view = λ j. look j ∙ ap (λ o. if eq_str j key then written value else o) (s.view j);
        },
      )

  -- A lookup of a key whose value is no manifest.
  pub get-plain :
      (r : Router V) (name key : Str) (t : TableState V) (d : Str → Option V)
      → IsCoherent r name t d
      → is_empty name ≡ false
      → is_empty key ≡ false
      → codec.as_manifest json.null ≡ none
      → manifest_of codec (table_view t d key) ≡ none
      → (r' : Router V) × (found : Option V) × (get codec name key r ≡ (r', ok found))
        × (present found ≡ table_view t d key)
  get-plain r name key t d c n1 n2 null plain =
      let (r', t', found, got, right, c', same) = get_internal-table_view r name key t d c n1 n2 in
      (
        r',
        found,
        get_lem r r' name key found n1 n2 got
            (manifest_of-present codec found null ∙ (ap (manifest_of codec) right ∙ plain)),
        right,
      )

  pub manifest_of-written :
      (value : V) → codec.as_manifest value ≡ none → manifest_of codec (written value) ≡ none
  manifest_of-written value h = elim (Bool-cases (json.is_null value)) [
    | inl null ↦ rw null refl
    | inr keep ↦ rw keep h
  ]
