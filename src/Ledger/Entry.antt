-- ===== src/Ledger/Entry.antt =====
-- Ledger entries (`build_entry`, `entry_hash` of backend/app/ledger/model.py).
use veyra_demo.Prelude.{List, String, map}
use veyra_demo.Python.Value.{Dict}

abbrev pub schema_version : String
schema_version = "intervention-ledger-v1"

abbrev pub genesis : String
genesis = "GENESIS"

-- The ten fields that `entry_hash` reads, in its order.
pub record Body : Type 0 where
  pub schema : String
  pub id : String
  pub case_id : String
  pub kind : String
  pub actor : String
  pub source : String
  pub recorded_at : String
  pub payload : Dict
  pub links : List String
  pub prev_hash : String

pub record Entry : Type 0 where
  pub body : Body
  pub open body use *
  pub hash : String

-- `{e["id"] for e in entries}`
abbrev pub ids : List Entry → List String
ids = map (λ e. e.id)
