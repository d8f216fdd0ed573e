-- ===== src/Lib.antt =====
-- Veyra keeps cases about machine incidents. What people and the engine say about a case is an
-- append-only ledger: each entry is validated against the entries before it, linked to them, and
-- hung on their hash chain. These files model that core of the backend (backend/app/).
--
-- The parts, and the files that model them:
--   Prelude, Python    lists and options; Python's exceptions as `Result`, its `str`, and JSON
--                      values (`Value`, `Dict`) with dictionaries in insertion order.
--   Engine/Outcomes    the named outcomes of checks, backend/app/engine/next_action.py (`SPLITS`,
--                      `ALIASES`, `outcome_of`); Outcomes/Names compares the tables.
--   Ledger/Entry, Chain, Payload, Request
--                      backend/app/ledger/model.py: `build_entry`, `verify_chain`, the readers of
--                      payload fields (`_text`, `_choice`, `_time`, `_ids`), `_find` and
--                      `_require_current_run`.
--   Ledger/Lifecycle, Confirmation, Progress
--                      backend/app/engine/states.py: `check_state`, `CHECK_TRANSITIONS`,
--                      `require_check_transition`, `require_confirming_record`, `decision_state`.
--   Ledger/Validate    `validate`, one function for each kind of entry in the files below it, in
--                      the order in which the code reads, tests and raises; `validators` is the
--                      chain of `if kind == …`, and `dispatch` walks it.
--   Ledger/SiteResults, Scores
--                      `site_results`, `_scores` and `_top` of backend/app/engine/next_action.py, `_lead`
--                      and the test of `gaps` whether an outcome could change an action, of
--                      backend/app/engine/decision_check.py.
--   Context            backend/app/context/model.py: assertions about a machine and their validation
--                      (Validate), `resolve` (Resolve), `confirmed`, `gaps`, `compare` and
--                      `changes_between` (Compare); proofs in Known, Sound, Agree and Accept.
--   Store/Tables, Append, Automatic, Assert
--                      backend/app/store/sqlite_store.py: the tables as lists, `_state`,
--                      `_write_transaction`, `_append_locked`, `append`, `append_trusted`,
--                      `assert_context`, the end of `_investigate_locked` (the run and its entry),
--                      `latest_run` and `execute_automatic` (Automatic).
--   Accounts           backend/app/accounts.py: signing in, its lockout, sessions and what ends them
--                      (Sessions), share links (Shares), workspaces and people (People); proofs in
--                      Lockout, Ended, Revoked, Keys (any sequence of calls), SignIn, Passwords
--                      and Slug.
--   Advice             backend/app/engine/checks.py: the catalog (Catalog), availability and eligibility of
--                      a check (Checks), its trigger and the ranking (Rank); backend/app/engine/triage.py:
--                      `hypothesis_board` (Board), `propose` and `recurrence` (Triage);
--                      backend/app/engine/next_action.py: `assess` (Assess), `compare` and `plan`
--                      (Compare), `decide` (Decide). A run is what these read of an investigation.
--
-- What is proved stands in Ledger/Accepted, Ledger/Links (where links point), Ledger/Moves (the check
-- lifecycle as a state machine stated apart from the code), Ledger/Rules (rules on what is accepted),
-- Ledger/Chain, Store/Calls (one call) and Store/History (any sequence of calls), and in the child
-- modules of Context, Accounts and Advice that are named for it. Tests holds concrete runs, over a
-- platform that is itself a program.
--
-- State is passed explicitly: `append` maps the tables to a result and the tables afterwards, and
-- a history is a sequence of such steps (`Step`, `Reach`), calls that raise among them. Every
-- function is total by structural recursion, so nothing runs on fuel.
--
-- Taken from outside as parameters (`Platform`, `Services`): the text format of dates, `str` of a
-- value that is no text, case folding, the decimal digits of regular expressions, SHA-256 over
-- canonical JSON, over file contents, over tool results and over tokens, scrypt, `str.lower`, the digests of rows and of contexts, and `float` of a
-- text; of the investigation itself the run that it makes, and its tool `window_rows` (`Tools`). `ReadsBack`
-- and `IsHex` name what two theorems rely on: dates read back as printed, and a digest is not the
-- word that starts a chain.
--
-- Simplified: the two times of a context assertion are the moments that their texts stand for; times
-- are natural numbers (microseconds, in Accounts seconds) where the code compares float seconds; an
-- error keeps its class and its text without the numbers, lists and values that the code prints into it; a float
-- is its binary mantissa and exponent, so comparisons are exact; an actor or a domain that JSON
-- allows to be no text raises a type error where the code would go on with it. SQLite's own
-- durability and locking, a stored password hash whose salt is not hexadecimal, and the JSON round
-- trip of stored entries are not modelled, nor are the caches, the read-only queries and the
-- investigation itself. A score is what was added to it and what was taken away; texts of payloads are read
-- as texts, as validation lets no other value in; a text that is absent is "" in a note of `assess`.
pub mod Prelude
pub mod Python
pub mod Engine
pub mod Ledger
pub mod Context
pub mod Accounts
pub mod Advice
pub mod Store
pub mod Tests
