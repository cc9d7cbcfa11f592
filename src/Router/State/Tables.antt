-- ===== src/Router/State/Tables.antt =====
-- The dictionary of the tables: looking up a table that is opened, and putting one.
use cachy_db.Base.{◌≡◌, refl, ◌∙◌, some, ok, Str}
use cachy_db.Base.Dict
use cachy_db.Base.Dict.{str_eq, get-put, beq_refl}
use cachy_db.Router.State.{TableState, Router, get_table_state, put_table}

module _ {V : Type 0} where
  pub get_table_state_there :
      (r : Router V) (name : Str) (t : TableState V)
      → Dict.get name r.tables ≡ some t
      → get_table_state name r ≡ (r, ok t)
  unfolding get_table_state
  get_table_state_there r name t h = rw (get_table_state, h) refl

  pub get-put_table :
      (r : Router V) (name : Str) (t : TableState V)
      → Dict.get name (put_table name t r).tables ≡ some t
  get-put_table r name t = get-put name name t r.tables ∙ rw (beq_refl name) refl
