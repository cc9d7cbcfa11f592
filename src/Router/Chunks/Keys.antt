-- ===== src/Router/Chunks/Keys.antt =====
-- The key of a chunk.
use cachy_db.Base.{ℕ, suc, false, ap, ◌≡◌, refl, ◌∷◌, ◌++◌, Str}
use cachy_db.BTree.MemTable.{is_empty}
use cachy_db.Router.Chunks.{chunk_key, chunk_prefix, digits}

pub chunk_key-append :
    (key : Str) (i : ℕ) → chunk_key key i ≡ chunk_prefix ++ (key ++ 0x3A ∷ digits (suc i) i)
unfolding chunk_key
chunk_key-append key i = refl

pub chunk_key-full : (key : Str) (i : ℕ) → is_empty (chunk_key key i) ≡ false
chunk_key-full key i = ap is_empty (chunk_key-append key i)
