-- ===== src/Store/Tables.antt =====
-- The tables that a ledger write reads, and what `CaseStore.case`, `CaseStore.ledger` and
-- `CaseStore._state` read from them.
use veyra_demo.Context.{Assertion}
use veyra_demo.Context.Resolve.{Attribute, Snapshot, resolve}
use veyra_demo.Ledger.Entry.{Entry}
use veyra_demo.Ledger.Platform.{Platform}
use veyra_demo.Ledger.Request.{State}
use veyra_demo.Prelude.{
  Bool, List, Option, String, [], every, if◌then◌else◌, keep, map, some, ℕ, ◌&&◌, ◌==◌, ◌∷◌,
}
use veyra_demo.Python.Result.{Result, err, ok, store_error}
use veyra_demo.Python.Text.{text_le, ◌&◌}
use veyra_demo.Python.Value.{Dict, empty, entry, str}

-- A row of `cases`; the two ends of the symptom window are set together, in microseconds.
pub record Case : Type 0 where
  pub id : String
  pub machine_id : String
  pub title : String
  pub fault_type : String
  pub synthetic : Bool
  pub created_at : String
  pub created_by : String
  pub symptom : Option (ℕ × ℕ)

-- A normalized row of an import: its time and its other fields.
pub record Sample : Type 0 where
  pub t : ℕ
  pub fields : Dict

-- The columns of `imports` that a ledger write reads.
pub record Import : Type 0 where
  pub id : String
  pub case_id : String
  pub sha256 : String
  pub content : List ℕ
  pub rows : List Sample
  pub normalized_sha256 : String
  pub created_at : String

-- A row of `runs`: its body, the case and the id of the run.
pub record RunRow : Type 0 where
  pub id : String
  pub case_id : String
  pub body : Dict

-- `runs` in the order of `rowid`; `assertions` in the order of `recorded_at`, then id, in which the store reads them; `ledger` in
-- the order of `seq`; a row's `case_id`, `entry_hash` and `prev_hash` repeat its entry's.
pub record Db : Type 0 where
  pub cases : List Case
  pub imports : List Import
  pub assertions : List Assertion
  pub runs : List RunRow
  pub ledger : List Entry
  pub in_transaction : Bool

-- The digests of file contents, of normalized rows (`canonical_rows_sha256`) and of a resolved context
-- (`snapshot_hash`).
pub record Services : Type 0 where
  pub platform : Platform
  pub sha256 : List ℕ → String
  pub rows_sha256 : List Sample → String
  pub context_digest : String → List (String × Attribute) → String

unfoldable pub find_case : List Case → String → Result Case
find_case [] case_id = err (store_error ("Case '" & case_id & "' not found"))
find_case (c ∷ cs) case_id = if c.id == case_id then ok c else find_case cs case_id

-- `CaseStore.case(case_id)`
unfoldable pub case_of : Db → String → Result Case
unfolding find_case
case_of db case_id = find_case db.cases case_id

-- the entries of one case
abbrev pub in_case : String → List Entry → List Entry
in_case case_id es = keep (λ e. e.case_id == case_id) es

-- `CaseStore.ledger(case_id)`
unfoldable pub ledger_of : Db → String → List Entry
ledger_of db case_id = in_case case_id db.ledger

-- `ORDER BY created_at, id`
unfoldable pub comes_before : Import → Import → Bool
comes_before a b =
    if a.created_at == b.created_at then text_le a.id b.id else text_le a.created_at b.created_at

unfoldable pub insert_import : Import → List Import → List Import
unfolding comes_before
insert_import a [] = a ∷ []
insert_import a (b ∷ bs) =
    let rest = insert_import a bs in if comes_before a b then a ∷ b ∷ bs else b ∷ rest

unfoldable pub order_imports : List Import → List Import
unfolding insert_import
order_imports [] = []
order_imports (a ∷ bs) = insert_import a (order_imports bs)

unfoldable pub imports_of : Db → String → List Import
unfolding order_imports
imports_of db case_id = order_imports (keep (λ i. i.case_id == case_id) db.imports)

-- `integrity_ok` of `CaseStore._import`: both digests still hold.
unfoldable pub is_intact : Services → Import → Bool
is_intact s i = s.sha256 i.content == i.sha256 && s.rows_sha256 i.rows == i.normalized_sha256

abbrev hashes : List Import → Dict
hashes [] = empty
hashes (i ∷ is) = entry i.id (str i.sha256) (hashes is)

-- `CaseStore.context(machine_id)`: what is known now about the machine as it is now
unfoldable pub context_of : Services → Db → String → ℕ → Snapshot
unfolding resolve
context_of s db machine_id now = resolve s.context_digest db.assertions machine_id now (some now)

-- `CaseStore._state(case)`: refused if an import of the case is not intact.
unfoldable pub state_of : Services → ℕ → Db → Case → Result State
unfolding imports_of is_intact context_of
state_of s now db c =
    let is = imports_of db c.id in
    if every (is_intact s) is
    then ok (record {
      input_hashes = hashes is;
      context_hash_current = (context_of s db c.machine_id now).hash;
      import_ids = map (λ i. i.id) is;
      import_sample_times = map (λ i. (i.id, map (λ r. r.t) i.rows)) is;
      symptom_window = c.symptom;
      synthetic = c.synthetic;
    })
    else err (store_error "Stored import integrity check failed; ledger write refused")
