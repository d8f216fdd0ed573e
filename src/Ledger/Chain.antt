-- ===== src/Ledger/Chain.antt =====
-- The hash chain of a case: `build_entry`, `entry_hash` and `verify_chain` of
-- backend/app/ledger/model.py.
pub mod Valid
pub mod Tamper
use veyra_demo.Ledger.Entry.{Body, Entry, genesis, schema_version}
use veyra_demo.Ledger.Platform.{Platform, aware}
use veyra_demo.Prelude.{
  Bool, List, String, [], false, if◌then◌else◌, last?, none, not, some, true, ℕ, ◌+◌, ◌==◌, ◌∷◌,
}
use veyra_demo.Python.Text.{strip}
use veyra_demo.Python.Value.{Dict}

-- `entry_hash(entry)` is `digest` of the body.
unfoldable pub build_entry :
    Platform → String → String → String → String → String → ℕ → Dict → List String → String → Entry
build_entry p entry_id case_id kind actor source now payload links prev_hash =
    let body : Body = record {
      schema = schema_version;
      id = entry_id;
      case_id = case_id;
      kind = kind;
      actor = strip actor;
      source = strip source;
      recorded_at = p.isoformat (aware now 1440);
      payload = payload;
      links = links;
      prev_hash = prev_hash;
    } in
    record { body = body; hash = p.digest body }

-- The dictionary that `verify_chain` returns.
pub data Report : Type 0 where
  valid : (entries : ℕ) (head : String) → Report
  broken : (broken_at : ℕ) (entry_id reason : String) → Report

-- The loop of `verify_chain`, at `previous` and `index`.
unfoldable pub verify_from : Platform → String → ℕ → List Entry → Report
verify_from p previous index [] = valid index previous
verify_from p previous index (e ∷ es) =
    let rest = verify_from p e.hash (index + 1) es in
    if not (e.prev_hash == previous)
    then broken index e.id "previous-hash link mismatch"
    else if not (p.digest e.body == e.hash)
    then broken index e.id "entry content does not match its hash"
    else rest

unfoldable pub verify_chain : Platform → List Entry → Report
unfolding verify_from
verify_chain p entries = verify_from p genesis 0 entries

abbrev pub is_valid : Report → Bool
is_valid (valid _ _) = true
is_valid (broken _ _ _) = false

-- `entries[-1]["hash"] if entries else GENESIS`
unfoldable pub head_hash : List Entry → String
head_hash entries = elim (last? entries) [ none ↦ genesis | some e ↦ e.hash ]
