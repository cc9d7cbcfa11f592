-- ===== src/Router/Disk.antt =====
-- `_get_page_slot_record` and `_read_from_disk`: a key's record on the pages.
pub mod Sound
use cachy_db.Base.{
  ℕ, zero, suc, Bool, true, false, Option, none, some, List, [], ◌∷◌, Result, ok, raise,
  if◌then◌else◌, length, Str, eq_str,
}
use cachy_db.Base.Exec.{Exec, after, catch, unchanged}
use cachy_db.Base.Dict
use cachy_db.Base.Dict.{str_eq, nat_eq}
use cachy_db.Bytes.{Bytes}
use cachy_db.Json.{Json}
use cachy_db.Pager.{Pager, get_record}
use cachy_db.Table.{TableHandler, total_pages, read_page}
use cachy_db.Router.Packing.{unpack_record}

-- `except Exception: return None`
abbrev pub ok_or_none : {A : Type 0} → Result A → Option A
ok_or_none (ok a) = some a
ok_or_none (raise e) = none

-- The page object that the handler keeps is the one that the router holds and changes.
abbrev pub keep_page : {M : Type 0} → ℕ → Pager M → TableHandler M → TableHandler M
keep_page page_id page h = record h { page_cache = Dict.put page_id page h.page_cache }

module _ {V : Type 0} ⦃json : Json V⦄ where
  -- `_unpack_record` of the bytes of a slot, if it has any
  pub unpacked : Option Bytes → Option (Str × V)
  unpacked none = none
  unpacked (some payload) = ok_or_none (unpack_record payload)

  pub remember : ℕ → Option (Str × V) → Exec (Pager (Option (Str × V))) (Option (Str × V))
  remember slot_id record' page =
      (record page { cached_metadata = Dict.put slot_id record' page.cached_metadata }, ok record')

  pub get_page_slot_record : ℕ → Exec (Pager (Option (Str × V))) (Option (Str × V))
  unfolding unpacked remember
  get_page_slot_record slot_id page = elim (Dict.get slot_id page.cached_metadata) [
    | some cached ↦ (page, ok cached)
    | none ↦ after (page, get_record page slot_id) (λ payload. remember slot_id (unpacked payload))
  ]

  -- The value of a record with the key
  abbrev pub matching : Str → Option (Str × V) → Option V
  matching key none = none
  matching key (some (p_key, p_val)) = if eq_str p_key key then some p_val else none

  -- The loop over the slots before `n`, the last first.
  pub scan_slots : Str → ℕ → Exec (Pager (Option (Str × V))) (Option V)
  unfolding get_page_slot_record
  scan_slots key zero page = (page, ok none)
  scan_slots key (suc n) page = after (get_page_slot_record n page) (λ record' page'.
      elim (matching key record') [
        | some p_val ↦ (page', ok (some p_val))
        | none ↦ scan_slots key n page'
      ])

  -- A method of a page that the handler keeps.
  abbrev pub on_page :
      {A : Type 0}
      → ℕ
      → TableHandler (Option (Str × V))
      → Pager (Option (Str × V)) × Result A
      → TableHandler (Option (Str × V)) × Result A
  on_page page_id h (page, r) = (keep_page page_id page h, r)

  -- The loop over the pages before `n`, the last first.
  pub scan_pages : Str → ℕ → Exec (TableHandler (Option (Str × V))) (Option V)
  unfolding scan_slots
  scan_pages key zero h = (h, ok none)
  scan_pages key (suc n) h =
      catch (unchanged h (read_page h n))
        (λ page h'. after (on_page n h' (scan_slots key (length page.slots) page)) (λ found h''.
          elim found [ some p_val ↦ (h'', ok (some p_val)) | none ↦ scan_pages key n h'' ]))
        (λ h'. scan_pages key n h')

  pub scan_table : Str → Exec (TableHandler (Option (Str × V))) (Option V)
  unfolding scan_pages
  scan_table key h = after (h, total_pages h) (λ n. scan_pages key n)

  -- The record that the index names.
  pub read_indexed : ℕ → ℕ → Exec (TableHandler (Option (Str × V))) (Option (Str × V))
  unfolding get_page_slot_record
  read_indexed page_id slot_id h =
      after (unchanged h (read_page h page_id))
        (λ page h'. on_page page_id h' (get_page_slot_record slot_id page))

  pub read_from_disk :
      Str → List (Str × (ℕ × ℕ)) → Exec (TableHandler (Option (Str × V))) (Option V)
  unfolding read_indexed scan_table
  read_from_disk key index h = elim (Dict.get key index) [
    | none ↦ (h, ok none)
    | some (page_id, slot_id) ↦
        catch (read_indexed page_id slot_id h)
          (λ record'. elim record' [
            | some (p_key, p_val) ↦ (λ h'. (h', ok (some p_val)))
            | none ↦ scan_table key
          ])
          (scan_table key)
  ]
