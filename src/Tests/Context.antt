-- ===== src/Tests/Context.antt =====
-- A machine's context: an engineer's confirmation, a later report of the same, and a later correction.
use veyra_demo.Context.{Assertion, Status, engineer_confirmed, reported}
use veyra_demo.Context.Accept.{IsProper, validate_assertion-IsProper}
use veyra_demo.Context.Compare.{Comparison, compare_snapshots, confirmed}
use veyra_demo.Context.Resolve.{
  Attribute, Snapshot, attribute_of, confirmation_in, greatest, insert_newest, is_usable,
  latest_effective, newest_first, resolve, rival_values, settle,
}
use veyra_demo.Context.Sound.{IsBacked, confirmed-IsBacked}
use veyra_demo.Context.Validate.{
  guard_offset, parse_time, read_definition, read_evidence, read_instant, read_note, read_status,
  read_text_value, read_value, required, validate_assertion,
}
use veyra_demo.Ledger.Platform.{aware}
use veyra_demo.Prelude.{List, Option, String, [], arith, false, none, refl, some, true, ℕ, ◌∷◌, ◌≡◌}
use veyra_demo.Python.Result.{Error, Result, err, integrity_error, ok}
use veyra_demo.Python.Text.{char_count, lstrip, replace_z, rstrip, strip}
use veyra_demo.Python.Value.{Dict, dict, str}
use veyra_demo.Store.Append.{Fresh}
use veyra_demo.Store.Assert.{assert_context, assert_context-replay, store_assertion}
use veyra_demo.Store.Tables.{Db, Services}
use veyra_demo.Tests.Toy.{parse_from, toy}

abbrev assertion : String → String → Status → ℕ → ℕ → Assertion
assertion id value status from learned_at = record {
  id = id;
  machine_id = "m";
  key = "oem";
  value = some value;
  status = status;
  source = "site visit";
  actor = "Ann";
  effective_from = aware from 0;
  recorded_at = aware learned_at 0;
  evidence = [];
  note = "";
}

abbrev confirmation : Assertion
confirmation = assertion "a1" "Acme" engineer_confirmed 1 2

abbrev report : Assertion
report = assertion "a2" "Acme" reported 3 4

abbrev correction : Assertion
correction = assertion "a3" "Apex" engineer_confirmed 3 9

abbrev no_digest : String → List (String × Attribute) → String
no_digest _ _ = ""

abbrev snapshot : List Assertion → Option ℕ → Snapshot
snapshot told known_at = resolve no_digest told "m" 5 known_at

-- the later report does not downgrade the confirmation
carried : confirmed (snapshot (confirmation ∷ report ∷ []) none) "oem" ≡ some "Acme"
unfolding resolve is_usable attribute_of latest_effective greatest settle newest_first insert_newest
    confirmation_in rival_values confirmed
carried = refl

-- two values in force are in conflict
disputed : confirmed (snapshot (confirmation ∷ report ∷ correction ∷ []) none) "oem" ≡ none
unfolding resolve is_usable attribute_of latest_effective greatest settle newest_first insert_newest
    confirmation_in rival_values confirmed
disputed = refl

confirmed-IsBacked_example : IsBacked (confirmation ∷ report ∷ []) "m" 5 none "oem" "Acme"
confirmed-IsBacked_example =
    confirmed-IsBacked no_digest (confirmation ∷ report ∷ []) "m" 5 none "oem" "Acme" carried

-- what a comparison answers, or one that is not comparable
abbrev answer_of : Result Comparison → Comparison
answer_of (ok c) = c
answer_of (err e) = record {
  comparable = false;
  required_confirmed = [];
  missing_confirmation = [];
  mismatched = [];
}

abbrev both : Result Comparison
both =
    compare_snapshots toy (snapshot (confirmation ∷ []) none) (snapshot (report ∷ []) none)
      "input_response.baseline"

abbrev raw_report : Dict
raw_report = dict (
    ("machine_id", str "m")
    ∷ ("key", str "remote_access")
    ∷ ("value", str " not_authorized ")
    ∷ ("source", str "call")
    ∷ ("actor", str "Ann")
    ∷ ("effective_from", str "11+")
    ∷ [])

abbrev accepted_report : Assertion
accepted_report = record {
  id = "a4";
  machine_id = "m";
  key = "remote_access";
  value = some "not_authorized";
  status = reported;
  source = "call";
  actor = "Ann";
  effective_from = aware 2 0;
  recorded_at = aware 4 0;
  evidence = [];
  note = "";
}

report_is_accepted :
    validate_assertion toy (λ _. none) raw_report "a4" (aware 4 0) ≡ ok accepted_report
unfolding validate_assertion parse_time read_instant read_definition read_status read_value
    read_text_value guard_offset required read_evidence read_note strip lstrip rstrip char_count
    replace_z parse_from
report_is_accepted = refl

validate_assertion-IsProper_example : IsProper accepted_report
validate_assertion-IsProper_example =
    validate_assertion-IsProper toy (λ _. none) raw_report "a4" (aware 4 0) accepted_report
      report_is_accepted

abbrev context_services : Services
context_services = record {
  platform = toy;
  sha256 = λ _. "sha";
  rows_sha256 = λ _. "rows";
  context_digest = no_digest;
}

abbrev context_db : Db
context_db = record {
  cases = [];
  imports = [];
  assertions = confirmation ∷ report ∷ [];
  runs = [];
  ledger = [];
  in_transaction = false;
}

abbrev told_twice : Db
told_twice = record context_db { assertions = record report { id = "a9" } ∷ confirmation ∷ [] }

abbrev call_at_nine : Fresh
call_at_nine = record { entry_id = "a9"; now = 9; recorded_at = 9 }

-- the id is in use: refused, with the transaction left open
second_id_is_refused :
    ((assert_context context_services (λ _. none) call_at_nine raw_report told_twice).0
      ≡ err (integrity_error "UNIQUE constraint failed: context_assertions.id"))
    × ((assert_context context_services
          (λ _. none)
          call_at_nine
          raw_report
          told_twice).1.in_transaction
        ≡ true)
unfolding assert_context store_assertion validate_assertion parse_time read_instant read_definition
    read_status read_value read_text_value guard_offset required read_evidence read_note strip
    lstrip rstrip char_count replace_z parse_from
second_id_is_refused = (refl, refl)

assert_context-replay_example :
    (resolve no_digest
        (assert_context context_services
          (λ _. none)
          call_at_nine
          raw_report
          told_twice).1.assertions
        "m"
        5
        (some 8)
      ≡ resolve no_digest told_twice.assertions "m" 5 (some 8))
    × ((x : Error)
        → (assert_context context_services (λ _. none) call_at_nine raw_report told_twice).0 ≡ err x
        → record (assert_context context_services
            (λ _. none)
            call_at_nine
            raw_report
            told_twice).1 { in_transaction = false }
          ≡ told_twice)
assert_context-replay_example =
    assert_context-replay context_services (λ _. none) call_at_nine raw_report told_twice "m" 5 8
      (omega arith)
