-- ===== src/Store/History.antt =====
-- Histories of a store: any sequence of the calls that write the ledger (`append`, `append_trusted`, `investigate`,
-- `execute_automatic`), failing ones included, with new cases and files in between. The seed database that
-- `engine_seed.py` copies into an empty store is where a history starts, not a step.
pub mod Growth
pub mod Sound
pub mod Answered
pub mod Decided
use veyra_demo.Prelude.{String, ◌≡◌}
use veyra_demo.Python.Value.{Dict, Value}
use veyra_demo.Store.Append.{Fresh, Write, append, append_run, append_trusted}
use veyra_demo.Store.Automatic.{Tools, execute_automatic}
use veyra_demo.Store.Tables.{Db, RunRow, Services}

-- One call on the store, or a change of the other tables.
pub data Step (s : Services) (db db' : Db) : Type 0 where
  by_person : (f : Fresh) (w : Write) → db' ≡ (append s f w db).1 → Step s db db'
  by_engine : (f : Fresh) (w : Write) → db' ≡ (append_trusted s f w db).1 → Step s db db'
  by_run :
      (f : Fresh) (r : RunRow) (payload : Dict) (actor : Value)
      → db' ≡ (append_run s f r payload actor db).1
      → Step s db db'
  by_tool :
      (t : Tools) (f : Fresh) (case_id check_id : String) (actor : Value)
      → db' ≡ (execute_automatic s t f case_id check_id actor db).1
      → Step s db db'
  other_tables : db'.ledger ≡ db.ledger → Step s db db'

pub data Reach (s : Services) (db : Db) : Db → Type 0 where
  start : Reach s db db
  continue : {u v : Db} → Reach s db u → Step s u v → Reach s db v
