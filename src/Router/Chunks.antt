-- ===== src/Router/Chunks.antt =====
-- `set`, `get` and `shutdown`: a value of more than 2000 bytes of JSON is compressed and stored in
-- chunks under keys of their own, with a manifest under its key.
pub mod Keys
pub mod Cleaning
pub mod Small
use cachy_db.Base.{
  ℕ, zero, suc, ◌+◌, ◌-◌, ◌*◌, ◌/◌, ◌%◌, Bool, true, false, ◌&&◌, ◌||◌, not, Option, none, some,
  List, [], ◌∷◌, ◌++◌, map, Result, ok, raise, ◌>>=◌, ◌>>◌, raise_if, value_error, ltb, ◌==◌,
  if◌then◌else◌, length, take, drop, Str,
}
use cachy_db.Base.Exec.{Exec, after, catch}
use cachy_db.Base.Dict
use cachy_db.Base.Dict.{str_eq}
use cachy_db.Bytes.{Bytes}
use cachy_db.Utf8
use cachy_db.Json.{Json}
use cachy_db.BTree.MemTable.{is_empty}
use cachy_db.Cache
use cachy_db.Table
use cachy_db.Router.Packing.{value_bytes, value_of}
use cachy_db.Router.State.{TableState, Router, put_table}
use cachy_db.Router.Flush.{flush_memtable_to_disk}
use cachy_db.Router.Write.{cache_put, set_internal, run_flush, await_flush}
use cachy_db.Router.Read.{get_internal, get_raw_manifest}

-- What the code uses of `zlib`, `base64` and of Python's objects for JSON: the texts, and the dicts
-- whose `__cachy_overflow__` is True. `as_manifest` gives `num_chunks` (`none` if it is missing) and
-- whether `compressed` is True.
pub record Overflow (V : Type 0) : Type 0 where
  pub compress : Bytes → Bytes
  pub decompress : Bytes → Result Bytes
  pub b64encode : Bytes → Str
  pub b64decode : Bytes → Result Bytes
  pub of_text : Str → V
  pub as_text : V → Option Str
  pub manifest : ℕ → ℕ → V
  pub as_manifest : V → Option (Result ℕ × Bool)

-- `"__chunk__:"`
abbrev pub chunk_prefix : Str
chunk_prefix = 0x5F ∷ 0x5F ∷ 0x63 ∷ 0x68 ∷ 0x75 ∷ 0x6E ∷ 0x6B ∷ 0x5F ∷ 0x5F ∷ 0x3A ∷ []

-- `key.startswith(prefix)`
unfoldable pub starts_with : Str → Str → Bool
starts_with [] key = true
starts_with (c ∷ prefix) [] = false
starts_with (c ∷ prefix) (d ∷ key) = c == d && starts_with prefix key

-- The decimal digits of a number, on fuel; `suc n` is enough for `n`.
unfoldable pub digits : ℕ → ℕ → Str
digits zero n = []
digits (suc fuel) n =
    let rest = digits fuel (n / 10) in
    if ltb n 10 then (48 + n) ∷ [] else rest ++ (48 + n % 10) ∷ []

-- `f"__chunk__:{key}:{i}"`
unfoldable pub chunk_key : Str → ℕ → Str
unfolding digits
chunk_key key i = chunk_prefix ++ (key ++ 0x3A ∷ digits (suc i) i)

abbrev pub chunk_size : ℕ
chunk_size = 2000

-- The slices of 2000 bytes, on fuel; the length is enough.
pub chunks_of : ℕ → Bytes → List Bytes
chunks_of zero b = []
chunks_of (suc fuel) [] = []
chunks_of (suc fuel) (x ∷ b) = take chunk_size (x ∷ b) ∷ chunks_of fuel (drop chunk_size (x ∷ b))

module _ {V : Type 0} ⦃json : Json V⦄ (codec : Overflow V) where
  -- `None` for the chunks from `i`, `n` of them.
  pub clear_chunks : Str → Str → ℕ → ℕ → Exec (Router V) (Unit {0})
  unfolding chunk_key
  clear_chunks table_name key i zero r = (r, ok tt)
  clear_chunks table_name key i (suc n) r =
      after (set_internal table_name (chunk_key key i) json.null r)
        (λ u. clear_chunks table_name key (i + 1) n)

  pub clear_manifest : Str → Str → Option (Result ℕ × Bool) → Exec (Router V) (Unit {0})
  unfolding clear_chunks
  clear_manifest table_name key none r = (r, ok tt)
  clear_manifest table_name key (some (num_chunks, compressed)) r =
      after (r, num_chunks) (λ n. clear_chunks table_name key 0 n)

  abbrev pub manifest_of : Option V → Option (Result ℕ × Bool)
  manifest_of none = none
  manifest_of (some value) = codec.as_manifest value

  -- The clean-up of old chunks; every exception is logged only.
  pub clean_up : Str → Str → Exec (Router V) (Unit {0})
  unfolding clear_manifest
  clean_up table_name key r =
      catch
        (after (get_raw_manifest table_name key r)
          (λ old_val. clear_manifest table_name key (manifest_of old_val)))
        (λ u r'. (r', ok tt)) (λ r'. (r', ok tt))

  pub set_chunks : Str → Str → ℕ → List Bytes → Exec (Router V) (Unit {0})
  unfolding chunk_key
  set_chunks table_name key i [] r = (r, ok tt)
  set_chunks table_name key i (chunk ∷ chunks) r =
      after (set_internal table_name (chunk_key key i) (codec.of_text (codec.b64encode chunk)) r)
        (λ u. set_chunks table_name key (i + 1) chunks)

  -- The part of `set` for a large value.
  pub set_large : Str → Str → V → Bytes → Exec (Router V) (Unit {0})
  unfolding clean_up set_chunks chunks_of
  set_large table_name key value bytes r =
      let compressed = codec.compress bytes in
      let chunks = chunks_of (length compressed) compressed in
      after (clean_up table_name key r) (λ u1 r1.
        after (set_chunks table_name key 0 chunks r1) (λ u2 r2.
          after (set_internal table_name key (codec.manifest (length chunks) (length bytes)) r2)
            (λ u3. cache_put table_name key value)))

  -- The record as it is; a value that was large before loses its chunks.
  pub set_small : Str → Str → V → Exec (Router V) (Unit {0})
  unfolding clean_up
  set_small table_name key value r =
      after (clean_up table_name key r) (λ u. set_internal table_name key value)

  -- A large value that cannot be chunked is written as it is.
  pub set_sized : Str → Str → V → Result Bytes → Exec (Router V) (Unit {0})
  unfolding set_large set_small
  set_sized table_name key value (raise e) r = set_small table_name key value r
  set_sized table_name key value (ok bytes) r = elim (ltb 2000 (length bytes)) [
    | false ↦ set_small table_name key value r
    | true ↦
        catch (set_large table_name key value bytes r) (λ u r'. (r', ok tt))
          (set_internal table_name key value)
  ]

  pub set_plain : Str → Str → V → Exec (Router V) (Unit {0})
  unfolding set_sized set_small
  set_plain table_name key value r = elim (starts_with chunk_prefix key) [
    | true ↦ set_internal table_name key value r
    | false ↦ elim (json.is_null value) [
      | true ↦ set_small table_name key value r
      | false ↦ set_sized table_name key value (value_bytes value) r
    ]
  ]

  pub set : Str → Str → V → Exec (Router V) (Unit {0})
  unfolding set_plain
  set table_name key value r =
      after (r, raise_if (is_empty table_name || is_empty key) value_error)
        (λ u. set_plain table_name key value)

  -- The bytes of the chunks from `i`, `n` of them; `none` if one is missing.
  abbrev pub chunk_bytes : V → Result Bytes
  chunk_bytes value = elim (codec.as_text value) [
    | none ↦ raise value_error
    | some text ↦ do encoded ← Utf8.encode text; codec.b64decode encoded
  ]

  abbrev pub chunk_value : Option V → Option V
  chunk_value none = none
  chunk_value (some value) = if json.is_null value then none else some value

  pub read_chunks : Str → Str → ℕ → ℕ → Exec (Router V) (Option Bytes)
  unfolding chunk_key
  read_chunks table_name key i zero r = (r, ok (some []))
  read_chunks table_name key i (suc n) r =
      after (get_internal table_name (chunk_key key i) r) (λ chunk_val r1.
        elim (chunk_value chunk_val) [
          | none ↦ (r1, ok none)
          | some value ↦
              after (r1, chunk_bytes value)
                (λ bytes r2. after (read_chunks table_name key (i + 1) n r2) (λ rest r3. elim rest [
                  | none ↦ (r3, ok none)
                  | some more ↦ (r3, ok (some (bytes ++ more)))
                ]))
        ])

  abbrev pub original_bytes : Bool → Bytes → Result Bytes
  original_bytes true bytes = codec.decompress bytes
  original_bytes false bytes = ok bytes

  pub join_chunks : Str → Str → Result ℕ → Bool → Exec (Router V) (Option V)
  unfolding read_chunks
  join_chunks table_name key num_chunks compressed r =
      after (r, num_chunks)
        (λ n r0. after (read_chunks table_name key 0 n r0) (λ joined r1. elim joined [
          | none ↦ (r1, ok none)
          | some bytes ↦
              after (r1, original_bytes compressed bytes >>= value_of)
                (λ value r2.
                  after (cache_put table_name key value r2) (λ u r3. (r3, ok (some value))))
        ]))

  pub get_value : Str → Str → Option V → Exec (Router V) (Option V)
  unfolding join_chunks
  get_value table_name key value r = elim (manifest_of value) [
    | none ↦ (r, ok value)
    | some (num_chunks, compressed) ↦
        catch (join_chunks table_name key num_chunks compressed r) (λ found r'. (r', ok found))
          (λ r'. (r', ok none))
  ]

  pub get : Str → Str → Exec (Router V) (Option V)
  unfolding get_value
  get table_name key r =
      after (r, raise_if (is_empty table_name || is_empty key) value_error)
        (λ u r0. after (get_internal table_name key r0) (get_value table_name key))

module _ {V : Type 0} where
  -- `future.result()` of every table's flush, whose exceptions are passed over.
  pub await_all : List Str → Router V → Router V
  await_all [] r = r
  await_all (name ∷ names) r = await_all names (await_flush name r).0

  pub close_table : Str → Router V → Router V
  close_table name r = elim (Dict.get name r.tables) [
    | none ↦ r
    | some table ↦ put_table name (record table { handler = Table.close table.handler }) r
  ]

  -- The last flush of each table, and the close of its file.
  pub close_all : List Str → Router V → Router V
  unfolding close_table
  close_all [] r = r
  close_all (name ∷ names) r = close_all names (close_table name (flush_memtable_to_disk name r).0)

  -- `shutdown`, up to the shutdown of the log.
  pub shutdown : Router V → Router V
  unfolding await_all close_all
  shutdown r =
      let names = map (λ entry. entry.0) r.tables in
      let closed = close_all names (await_all names r) in
      record closed { cache = Cache.clear closed.cache }
