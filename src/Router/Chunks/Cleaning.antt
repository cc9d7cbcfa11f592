-- ===== src/Router/Chunks/Cleaning.antt =====
-- The clean-up of the chunks of an old value.
use cachy_db.Base.{
  ℕ, zero, suc, ◌+◌, ◌≤◌, ◌<◌, ◌≡◌, refl, ap, ◌∙◌, Bool, Bool-cases, true, false, ◌||◌, ◌⊎◌, inl,
  inr, Option, none, some, Result, ok, length, Str, eq_str, if◌then◌else◌, arith,
}
use cachy_db.Bytes.{Bytes}
use cachy_db.Json.{Json}
use cachy_db.BTree.MemTable.{is_empty}
use cachy_db.Router.Packing.{pack_record}
use cachy_db.Router.State.{TableState, Router}
use cachy_db.Router.View.{IsCoherent, table_view, present}
use cachy_db.Router.Flush.Running.{written}
use cachy_db.Router.Write.{set_internal}
use cachy_db.Router.Write.Rotation.{budget, budget-Roomy}
use cachy_db.Router.Write.Refines.{set_internal-Writes}
use cachy_db.Router.Read.{get_raw_manifest}
use cachy_db.Router.Read.Raw.{get_raw_manifest-Finds}
use cachy_db.Router.Chunks.{
  Overflow, chunk_key, manifest_of, clear_chunks, clear_manifest, clean_up,
}
use cachy_db.Router.Chunks.Keys.{chunk_key-full}

-- Whether a key is that of one of the `n` chunks from `i`.
abbrev pub is_chunk : Str → ℕ → ℕ → Str → Bool
is_chunk key i zero j = false
is_chunk key i (suc n) j = eq_str j (chunk_key key i) || is_chunk key (i + 1) n j

module _ (V : Type 0) ⦃json : Json V⦄ where
  -- The tombstones of the `n` chunks from `i` fit into a page.
  abbrev pub Erasable : Str → ℕ → ℕ → Type 0
  Erasable key i zero = Unit
  Erasable key i (suc n) =
      ((payload : Bytes) × (pack_record {V = V} (chunk_key key i) json.null ≡ ok payload)
        × (length payload ≤ 4072))
      × Erasable key (i + 1) n

module _ {V : Type 0} ⦃json : Json V⦄ where
  -- The state after the clean-up of `n` chunks.
  pub record Cleans (name key : Str) (i n : ℕ) (t : TableState V) (d : Str → Option V)
      (r' : Router V) : Type 0 where
    pub t' : TableState V
    pub d' : Str → Option V
    pub coherent : IsCoherent r' name t' d'
    pub spent : budget t' ≤ budget t + (n + n)
    pub view :
        (j : Str) → table_view t' d' j ≡ (if is_chunk key i n j then none else table_view t d j)

  written-null : written json.null ≡ none
  written-null = rw ((json.is_null_iff json.null).1 refl) refl

module _ {V : Type 0} ⦃json : Json V⦄ (codec : Overflow V) where
  clear_chunks_step :
      (r r1 : Router V) (name key : Str) (i n : ℕ)
      → set_internal name (chunk_key key i) json.null r ≡ (r1, ok tt)
      → clear_chunks codec name key i (suc n) r ≡ clear_chunks codec name key (i + 1) n r1
  unfolding clear_chunks
  clear_chunks_step r r1 name key i n h = rw (clear_chunks, h) refl

  clear_chunks-Cleans :
      (n i : ℕ) (r : Router V) (name key : Str) (t : TableState V) (d : Str → Option V)
      → IsCoherent r name t d
      → budget t + (n + n) < 4294967296
      → is_empty name ≡ false
      → Erasable V key i n
      → (r' : Router V) × (clear_chunks codec name key i n r ≡ (r', ok tt))
        × Cleans name key i n t d r'
  unfolding clear_chunks
  clear_chunks-Cleans zero i r name key t d c room ne e =
      (r, refl, record { t' = t; d' = d; coherent = c; spent = omega arith; view = λ j. refl })
  clear_chunks-Cleans (suc n) i r name key t d c room ne ((payload, packed, fit), e) =
      let (r1, t1, d1, done, c1, look, spent) =
        set_internal-Writes r name (chunk_key key i) json.null payload t d c
          (budget-Roomy t (omega (arith, room))) ne (chunk_key-full key i) packed fit in
      let (r2, rest, s) =
        clear_chunks-Cleans n (i + 1) r1 name key t1 d1 c1 (omega (arith, room, spent)) ne e in
      let more = s.spent in
      (
        r2,
        clear_chunks_step r r1 name key i n done ∙ rest,
        record {
          t' = s.t';
          d' = s.d';
          coherent = s.coherent;
          spent = omega (arith, more, spent);
          view = λ j.
              s.view j
              ∙ erased (eq_str j (chunk_key key i)) (is_chunk key (i + 1) n j) (table_view t1 d1 j)
                  (table_view t d j) (look j);
        },
      )
    where
      erased :
          (a b : Bool) (x y : Option V)
          → x ≡ (if a then written json.null else y)
          → (if b then none else x) ≡ (if a || b then none else y)
      erased true true x y h = refl
      erased true false x y h = h ∙ written-null
      erased false true x y h = refl
      erased false false x y h = h

  -- What the table has under the key is the manifest of `n` chunks, or no manifest and `n` is 0.
  abbrev pub OldChunks : Option V → ℕ → Type 0
  OldChunks o n =
      ((compressed : Bool) × (manifest_of codec o ≡ some (ok n, compressed)))
      ⊎ ((manifest_of codec o ≡ none) × (n ≡ 0))

  pub manifest_of-present :
      (o : Option V)
      → codec.as_manifest json.null ≡ none
      → manifest_of codec o ≡ manifest_of codec (present o)
  manifest_of-present none h = refl
  manifest_of-present (some value) h = elim (Bool-cases (json.is_null value)) [
    | inl null ↦
        let v : value ≡ json.null = (json.is_null_iff value).0 null in
        rw null (ap codec.as_manifest v ∙ h)
    | inr keep ↦ rw keep refl
  ]

  clean_up_lem :
      (r r1 r2 : Router V) (name key : Str) (o : Option V) (m : Option (Result ℕ × Bool))
      → get_raw_manifest name key r ≡ (r1, ok o)
      → manifest_of codec o ≡ m
      → clear_manifest codec name key m r1 ≡ (r2, ok tt)
      → clean_up codec name key r ≡ (r2, ok tt)
  unfolding clean_up
  clean_up_lem r r1 r2 name key o m g e done =
      rw (clean_up, g, ap (λ x. clear_manifest codec name key x r1) e ∙ done) refl

  clear_manifest-none :
      (r : Router V) (name key : Str) → clear_manifest codec name key none r ≡ (r, ok tt)
  unfolding clear_manifest
  clear_manifest-none r name key = refl

  clear_manifest-some :
      (r : Router V) (name key : Str) (n : ℕ) (compressed : Bool)
      → clear_manifest codec name key (some (ok n, compressed)) r
        ≡ clear_chunks codec name key 0 n r
  unfolding clear_manifest
  clear_manifest-some r name key n compressed = refl

  -- The clean-up takes just the old chunks from the map.
  pub clean_up-Cleans :
      (r : Router V) (name key : Str) (n : ℕ) (t : TableState V) (d : Str → Option V)
      → IsCoherent r name t d
      → budget t + (n + n) < 4294967296
      → is_empty name ≡ false
      → is_empty key ≡ false
      → codec.as_manifest json.null ≡ none
      → OldChunks (table_view t d key) n
      → Erasable V key 0 n
      → (r' : Router V) × (clean_up codec name key r ≡ (r', ok tt)) × Cleans name key 0 n t d r'
  clean_up-Cleans r name key n t d c room n1 n2 null old e =
      let f = get_raw_manifest-Finds r name key t d c n2 in
      let used = f.spent in
      let same : manifest_of codec f.value ≡ manifest_of codec (table_view t d key) =
        manifest_of-present f.value null ∙ ap (manifest_of codec) f.right in
      elim old [
        | inl (compressed, m) ↦
            let (r2, done, s) =
              clear_chunks-Cleans n 0 f.r' name key f.t' d f.coherent (omega (arith, room, used)) n1
                e in
            let more = s.spent in
            (
              r2,
              clean_up_lem r f.r' r2 name key f.value (some (ok n, compressed)) f.returned
                  (same ∙ m) (clear_manifest-some f.r' name key n compressed ∙ done),
              record {
                t' = s.t';
                d' = s.d';
                coherent = s.coherent;
                spent = omega (arith, more, used);
                view = λ j. s.view j ∙ ap (λ o. if is_chunk key 0 n j then none else o) (f.same j);
              },
            )
        | inr (m, zero_chunks) ↦ (
          f.r',
          clean_up_lem r f.r' f.r' name key f.value none f.returned (same ∙ m)
              (clear_manifest-none f.r' name key),
          record {
            t' = f.t';
            d' = d;
            coherent = f.coherent;
            spent = omega (arith, used);
            view = λ j. f.same j ∙ rw zero_chunks refl;
          },
        )
      ]
