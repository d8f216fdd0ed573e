-- ===== src/Ledger/Validate/Findings.antt =====
-- The branches of `validate` for `hypothesis_status`, with `_exclusion`, and `reference_declared`.
use veyra_demo.Ledger.Entry.{Entry, ids}
use veyra_demo.Ledger.Payload.{choice, id_list, text, text_if, time}
use veyra_demo.Ledger.Platform.{Platform}
use veyra_demo.Ledger.Request.{Request, Validated, require_current_run}
use veyra_demo.Ledger.Validate.Decisions.{domains}
use veyra_demo.Ledger.Validate.Outcomes.{moment_of}
use veyra_demo.Prelude.{
  Bool, List, Option, String, [], any, elem, every, false, if◌then◌else◌, is_nil, keep, leb, ltb,
  map, nat_eq, none, not, some, true, ℕ, ◌&&◌, ◌==◌, ◌∷◌,
}
use veyra_demo.Python.Result.{
  Result, attribute_error, err, ledger_error, ok, or_raise, raise_if, select, ◌>>=◌, ◌>>◌,
}
use veyra_demo.Python.Text.{bar_count, before_bar, join, sorted, ◌&◌}
use veyra_demo.Python.Value.{
  Dict, Value, all_texts?, arr, dict, dot_get, empty, get, item, iterate, keys, last_with, lookup,
  member, nil, null, obj, of_items, str, text?, texts, truthy, update,
}

abbrev are_findings : List String → Bool
are_findings = every (λ k. nat_eq (bar_count k) 2)

-- `excludes` as a list of findings written rule|signal|scope
unfoldable pub named_findings : Value → Result (List String)
named_findings (arr vs) = do
  named ←
      or_raise (all_texts? vs) (ledger_error "'excludes' must list findings as rule|signal|scope")
  raise_if (not (are_findings named))
      (ledger_error "'excludes' must list findings as rule|signal|scope")
  ok named
named_findings _ = err (ledger_error "'excludes' must list findings as rule|signal|scope")

-- `any(k not in flagged for k in named)`
unfoldable pub all_flagged : Value → List String → Result Bool
all_flagged flagged [] = ok true
all_flagged flagged (k ∷ ks) = do
  here ← member (str k) flagged
  if here then all_flagged flagged ks else ok false

unfoldable pub guard_flagged : Value → List String → Result (Unit {0})
unfolding all_flagged
guard_flagged null named = ok tt
guard_flagged flagged named = do
  flagged_all ← all_flagged flagged named
  raise_if (not flagged_all)
      (ledger_error "'excludes' names a finding this run did not flag for this part")

-- `not rules or k.split("|")[0] in rules`
unfoldable pub of_rules : List String → Value → Result Bool
of_rules [] k = ok true
of_rules rules (str k) = ok (elem (before_bar k) rules)
of_rules rules _ = err attribute_error

-- The findings that a "ruled out" verdict covers.
unfoldable pub excluded_findings : Dict → Value → List String → Result (List Value)
unfolding named_findings guard_flagged of_rules
excluded_findings payload flagged rules = elim (get "excludes" payload) [
  | null ↦ elim flagged [
    | null ↦ ok (if is_nil rules then str "*" ∷ [] else map (λ r. str (r & "|*|*")) rules)
    | keys ↦ do ks ← iterate keys; select (of_rules rules) ks
  ]
  | value ↦ do named ← named_findings value; guard_flagged flagged named; ok (map str named)
]

-- `_exclusion(payload, belief, rules, run)`
unfoldable pub exclusion : Dict → Value → List String → Entry → Result Dict
unfolding excluded_findings
exclusion payload row rules run = do
  flagged ← dot_get "flagged_keys" row
  excluded ← excluded_findings payload flagged rules
  ok (
      dict (
        ("excluded_observations", arr (of_items excluded))
        ∷ ("input_hashes", get "input_hashes" run.payload)
        ∷ []))

-- `belief.get(domain, {})`, where `belief` indexes the rows of the run's belief by domain
unfoldable pub belief_row : Entry → String → Result Value
belief_row run domain = do
  belief ← item "belief" run.payload
  rows ← iterate belief
  row ← last_with "domain" domain none rows
  ok (elim row [ none ↦ obj empty | some v ↦ v ])

-- `row.get(key, [])`
unfoldable pub get_list : String → Value → Result Value
get_list key (obj d) = ok (elim (lookup key d) [ none ↦ arr nil | some v ↦ v ])
get_list key _ = err attribute_error

unfoldable pub read_rules : Value → Result (List String)
read_rules v =
    if truthy v
    then elim v [
      | arr rs ↦
          or_raise (all_texts? rs)
            (ledger_error "'finding_rules' must be a list of rule identifiers")
      | _ ↦ err (ledger_error "'finding_rules' must be a list of rule identifiers")
    ]
    else ok []

unfoldable pub unobserved : Value → String → Result Bool
unobserved observed rule = do here ← member (str rule) observed; ok (not here)

abbrev has_verdict : String → Bool
has_verdict status = elem status ("ruled_out" ∷ "weakened" ∷ "supported" ∷ [])

unfoldable pub hypothesis_status : Platform → Request → Dict → Result Validated
unfolding belief_row get_list read_rules unobserved exclusion
hypothesis_status p r payload = do
  run ← require_current_run r (get "run_id" payload)
  domain ← choice payload "domain" domains
  status ← choice payload "status" ("ruled_out" ∷ "weakened" ∷ "supported" ∷ "reopened" ∷ [])
  evidence ←
      id_list payload "evidence_entries"
        (ids (keep (λ e. elem e.kind ("check_execution" ∷ "reproduction_attempt" ∷ [])) r.entries))
        "Check executions or reproduction attempts"
  row ← belief_row run domain
  rules ← read_rules (get "finding_rules" payload)
  observed ← get_list "observation_rules" row
  unknown ← select (unobserved observed) rules
  raise_if (not (is_nil unknown))
      (ledger_error ("Rules not observed for " & domain & " in this run: " & join ", " unknown))
  raise_if (has_verdict status && is_nil evidence && is_nil rules) (
      ledger_error (
        "'" & status
        & "' needs evidence: check executions, reproduction attempts or findings from this run"))
  run_id ← item "run_id" run.payload
  basis ← text payload "basis" 4000
  scope ← text_if (elem status ("ruled_out" ∷ "weakened" ∷ [])) payload "scope" 1000
  engine_status ← dot_get "status" row
  excluded ← (if status == "ruled_out" then exclusion payload row rules run else ok empty)
  ok (
    update
        (update
          (dict (
            ("run_id", run_id)
            ∷ ("domain", str domain)
            ∷ ("status", str status)
            ∷ ("basis", str basis)
            ∷ ("scope", text? scope)
            ∷ ("evidence_entries", texts evidence)
            ∷ ("finding_rules", texts rules)
            ∷ ("engine_status_at_review", engine_status)
            ∷ []))
          excluded)
        (dict (
          (
            "boundary",
            str
                "A person's judgement about one domain, limited to the stated scope. Ruled out here means: not supported by what was examined.",
          )
          ∷ [])),
    run.id ∷ evidence,
  )

-- `symptom and start_t < symptom[1] and end_t > symptom[0]`
unfoldable pub overlaps_symptom : Option (ℕ × ℕ) → ℕ → ℕ → Bool
overlaps_symptom none start end = false
overlaps_symptom (some (from, to)) start end = ltb start to && ltb from end

-- `[i for i, times in sample_times.items() if any(start <= t <= end for t in times)]`
unfoldable pub covering : ℕ → ℕ → List (String × List ℕ) → List String
covering start end times =
    map (λ r. r.0) (keep (λ r. any (λ t. leb start t && leb t end) r.1) times)

unfoldable pub reference_declared : Platform → Request → Dict → Result Validated
unfolding overlaps_symptom covering
reference_declared p r payload = do
  start ← time p payload "window_from" r.now
  end ← time p payload "window_to" r.now
  start_t ← moment_of p start
  end_t ← moment_of p end
  raise_if (leb end_t start_t) (ledger_error "window_to must be after window_from")
  raise_if (overlaps_symptom r.state.symptom_window start_t end_t) (
      ledger_error
        "The reference window overlaps the symptom window; a known-good reference must lie outside it")
  let covered = covering start_t end_t r.state.import_sample_times
  raise_if (is_nil covered) (ledger_error "No imported records fall inside the reference window")
  basis ← text payload "basis" 4000
  source ← text_if false payload "reference_source" 300
  ok (
    dict (
        ("window_from", str start)
        ∷ ("window_to", str end)
        ∷ ("basis", str basis)
        ∷ ("source", text? source)
        ∷ ("covered_by_imports", texts (sorted covered))
        ∷ (
          "boundary",
          str
              "Declared known-good by a person. The engine compares against it; it does not prove it was healthy.",
        )
        ∷ []),
    [],
  )
