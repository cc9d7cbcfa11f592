-- ===== src/Database/Tests.antt =====
-- Concrete runs of the facade.
use cachy_db.Base.{
  ◌+◌, ◌-◌, ◌≤◌, ◌<◌, ap, inl, eq_str, if◌then◌else◌, ℕ, ◌≡◌, refl, true, Option, none, some, List,
  [], ◌∷◌, ok, Str, length, arith,
}
use cachy_db.Bytes.{Bytes, pack_h}
use cachy_db.Utf8.{encode, encode_char}
use cachy_db.Json.Plain.{
  Plain, is_nothing, nothing, word, plain_json, is_nothing, dumps, plain_text, plain_char,
  is_nothing,
}
use cachy_db.Router.Packing.{value_bytes, pack_record}
use cachy_db.Router.Packing.Tests.{bob}
use cachy_db.Router.State.{TableState, Router}
use cachy_db.Router.View.{IsCoherent, present, table_view}
use cachy_db.Router.Flush.Running.{written}
use cachy_db.Router.Tests.{
  users, no_value, users_router, users_table, users-IsCoherent, users-Roomy, users-budget,
  users-cache,
}
use cachy_db.Router.Chunks.{Overflow, manifest_of, digits}
use cachy_db.Router.Chunks.Small.{IsSmall, Replaces}
use cachy_db.Router.Chunks.Cleaning.{OldChunks, Erasable}
use cachy_db.Router.Write.{set_internal}
use cachy_db.Router.Write.Rotation.{budget}
use cachy_db.Router.Write.Refines.{set_internal-Writes}
use cachy_db.Base.Dict.{nat_eq, mem}
use cachy_db.Router.Chunks.{chunk_key}
use cachy_db.Router.Read.{get_internal}
use cachy_db.Database.Replay.{IsLog, write_all, get_internal-recover_records}
use cachy_db.Database.{namespaced_key, recovered_table, recover_records, set, get}
use cachy_db.Database.Session.{database_get-set}
use cachy_db.Database.Recovery.{chunk_table, recovered_table-namespaced_key}

-- `"a:b"`
abbrev key : Str
key = 0x61 ∷ 0x3A ∷ 0x62 ∷ []

recovered_table-namespaced_key_example :
    (recovered_table (namespaced_key users key) ≡ users)
    × (recovered_table (chunk_key (namespaced_key users key) 0) ≡ chunk_table)
unfolding mem
recovered_table-namespaced_key_example = recovered_table-namespaced_key users key 0 refl refl

-- Manifests as words of two digits, and no compression.
abbrev manifests : Overflow Plain
manifests = record {
  compress = λ bytes. bytes;
  decompress = λ bytes. ok bytes;
  b64encode = λ bytes. bytes;
  b64decode = λ text. ok text;
  of_text = λ text. word text;
  as_text = λ value. elim value [ nothing ↦ none | word text ↦ some text ];
  manifest = λ num_chunks size. word ((48 + num_chunks) ∷ (48 + size) ∷ []);
  as_manifest = λ value. elim value [
    | nothing ↦ none
    | word text ↦ elim text [
      | [] ↦ none
      | c ∷ rest ↦ elim rest [
        | [] ↦ none
        | d ∷ more ↦ elim more [ [] ↦ some (ok (c - 48), true) | e ∷ others ↦ none ]
      ]
    ]
  ];
}

-- `"users:a:b"` with the value `"bob"`
abbrev users_record : Bytes
users_record =
    0 ∷ 9 ∷ 0x75 ∷ 0x73 ∷ 0x65 ∷ 0x72 ∷ 0x73 ∷ 0x3A ∷ 0x61 ∷ 0x3A ∷ 0x62 ∷ 0x22 ∷ 0x62 ∷ 0x6F ∷ 0x62
    ∷ 0x22 ∷ []

pack-users : pack_record (namespaced_key users key) (word bob) ≡ ok users_record
unfolding pack_record value_bytes encode encode_char dumps plain_text plain_char pack_h
pack-users = refl

bob-IsSmall : IsSmall manifests (word bob)
unfolding value_bytes encode encode_char dumps plain_text plain_char
bob-IsSmall = (0x22 ∷ 0x62 ∷ 0x6F ∷ 0x62 ∷ 0x22 ∷ [], refl, omega arith)

-- The manifest of one chunk, as it is stored under `"users:a:b"`.
abbrev one_chunk : Plain
one_chunk = manifests.manifest 1 0

abbrev manifest_record : Bytes
manifest_record =
    0 ∷ 9 ∷ 0x75 ∷ 0x73 ∷ 0x65 ∷ 0x72 ∷ 0x73 ∷ 0x3A ∷ 0x61 ∷ 0x3A ∷ 0x62 ∷ 0x22 ∷ 0x31 ∷ 0x30 ∷ 0x22
    ∷ []

pack-manifest : pack_record (namespaced_key users key) one_chunk ≡ ok manifest_record
unfolding pack_record value_bytes encode encode_char dumps plain_text plain_char pack_h
pack-manifest = refl

-- The table `users` with the manifest in it.
with_manifest :
    (r : Router Plain) × (t : TableState Plain) × (d : Str → Option Plain) × (set_internal users
        (namespaced_key users key)
        one_chunk
        users_router
      ≡ (r, ok tt))
    × IsCoherent r users t d
    × ((j : Str)
        → table_view t d j ≡ (
            if eq_str j (namespaced_key users key)
            then written one_chunk
            else table_view users_table no_value j))
    × (budget t ≤ budget users_table + 2)
with_manifest =
    set_internal-Writes users_router users (namespaced_key users key) one_chunk manifest_record
      users_table no_value users-IsCoherent users-Roomy refl refl pack-manifest (omega arith)

abbrev old_router : Router Plain
old_router = with_manifest.0

abbrev old_table : TableState Plain
old_table = with_manifest.1

abbrev old_values : Str → Option Plain
old_values = with_manifest.2

old_table-OldChunks :
    OldChunks manifests (table_view old_table old_values (namespaced_key users key)) 1
unfolding is_nothing
old_table-OldChunks =
    let name = namespaced_key users key in
    let stored : table_view old_table old_values name ≡ some one_chunk = with_manifest.5 name in
    inl (true, ap (manifest_of manifests) stored)

-- `"__chunk__:users:a:b:0"` with the value None
abbrev chunk_record : Bytes
chunk_record =
    0 ∷ 21 ∷ 0x5F ∷ 0x5F ∷ 0x63 ∷ 0x68 ∷ 0x75 ∷ 0x6E ∷ 0x6B ∷ 0x5F ∷ 0x5F ∷ 0x3A ∷ 0x75 ∷ 0x73
    ∷ 0x65 ∷ 0x72 ∷ 0x73 ∷ 0x3A ∷ 0x61 ∷ 0x3A ∷ 0x62 ∷ 0x3A ∷ 0x30 ∷ 0x6E ∷ 0x75 ∷ 0x6C ∷ 0x6C ∷ []

chunk-Erasable : Erasable Plain (namespaced_key users key) 0 1
unfolding pack_record value_bytes encode encode_char dumps plain_text plain_char pack_h chunk_key
    digits
chunk-Erasable = ((chunk_record, refl, omega arith), tt)

old_table-budget : budget old_table + (1 + 1) < 4294967296
old_table-budget = omega (arith, with_manifest.6, users-budget)

database_get-set_example :
    (r1 : Router Plain) × (r2 : Router Plain) × (found : Option Plain) × (set manifests users key
        (word bob)
        old_router
      ≡ (r1, ok tt))
    × Replaces manifests users (namespaced_key users key) (word bob) 1 old_table old_values r1
    × (get manifests users key r1 ≡ (r2, ok found))
    × (present found ≡ written (word bob))
unfolding mem
database_get-set_example =
    database_get-set manifests old_router users key (word bob) users_record 1 old_table old_values
      with_manifest.4 old_table-budget refl refl refl refl pack-users (omega arith) bob-IsSmall refl
      refl old_table-OldChunks chunk-Erasable

-- `"users:a:b"` with the value None
abbrev users_deleted : Bytes
users_deleted =
    0 ∷ 9 ∷ 0x75 ∷ 0x73 ∷ 0x65 ∷ 0x72 ∷ 0x73 ∷ 0x3A ∷ 0x61 ∷ 0x3A ∷ 0x62 ∷ 0x6E ∷ 0x75 ∷ 0x6C ∷ 0x6C
    ∷ []

pack-deleted : pack_record (namespaced_key users key) nothing ≡ ok users_deleted
unfolding pack_record value_bytes encode encode_char dumps plain_text plain_char pack_h
pack-deleted = refl

users-recovered : recovered_table (namespaced_key users key) ≡ users
unfolding mem
users-recovered = (recovered_table-namespaced_key users key 0 refl refl).0

-- The records of a write and of a deletion after it.
abbrev log : List (ℕ × Bytes)
log = (0, users_record) ∷ (1, users_deleted) ∷ []

abbrev log_entries : List (Str × Plain)
log_entries = (namespaced_key users key, word bob) ∷ (namespaced_key users key, nothing) ∷ []

log-IsLog : IsLog users log log_entries
log-IsLog = (
  record {
    to_table = users-recovered;
    full = refl;
    packed = pack-users;
    fits = omega arith;
    valid = omega arith;
  },
  (
    record {
      to_table = users-recovered;
      full = refl;
      packed = pack-deleted;
      fits = omega arith;
      valid = omega arith;
    },
    tt,
  ),
)

get_internal-recover_records_example :
    (r1 : Router Plain) × (r2 : Router Plain) × (found : Option Plain) × (recover_records log
        users_router
      ≡ (r1, length log))
    × (get_internal users (namespaced_key users key) r1 ≡ (r2, ok found))
    × (present found
        ≡ write_all log_entries (table_view users_table no_value) (namespaced_key users key))
get_internal-recover_records_example =
    get_internal-recover_records users_router users users_table no_value log log_entries
      (namespaced_key users key) users-IsCoherent users-cache log-IsLog refl refl
