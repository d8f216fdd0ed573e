-- ===== src/Advice/Triage.antt =====
-- The severity and the owner that the program proposes, and earlier cases of the same machine: `propose` and
-- `recurrence` of backend/app/engine/triage.py.
pub mod Ownership
use veyra_demo.Advice.Board.{Assessment, BoardRow, is_ruled_out}
use veyra_demo.Engine.Outcomes.{find_key}
use veyra_demo.Ledger.Entry.{Entry}
use veyra_demo.Ledger.Platform.{Platform}
use veyra_demo.Prelude.{
  Bool, List, Option, String, [], any, elem, false, if◌then◌else◌, is_nil, keep, last?, leb, length,
  map, nat_eq, none, not, some, ℕ, ◌&&◌, ◌++◌, ◌==◌, ◌||◌, ◌∷◌,
}
use veyra_demo.Prelude.Sort.{lex_lt, sort_by}
use veyra_demo.Python.Text.{distinct, join, number_text, sorted, spaced, text_le, ◌&◌}
use veyra_demo.Python.Value.{get, is_str, truthy}

-- `_STRENGTH.get(status, 0)`
abbrev pub strength : String → ℕ
strength s =
    if s == "delay_observed"
    then 3
    else if s == "anomaly_observed"
    then 2
    else if s == "not_observed"
    then 1
    else 0

-- `SAFETY_INTERVENTIONS`
abbrev pub is_safety : String → Bool
is_safety t = t == "takeover" || t == "emergency_stop"

abbrev pub shows_problem : Assessment → Bool
shows_problem a = a.status == "delay_observed" || a.status == "anomaly_observed"

pub record Severity : Type 0 where
  pub level : String
  pub rule : String
  pub basis : String

-- `severity`, from the types of the interventions
unfoldable pub severity_of : List (String × Assessment) → List String → Severity
severity_of parts interventions = elim (keep is_safety interventions) [
  | t ∷ _ ↦ record {
    level = "high";
    rule = "T1";
    basis =
        "Operator "
        & (spaced t & " recorded; treat as safety-relevant until the intervention is reviewed");
  }
  | [] ↦
      if any (λ p. shows_problem p.1) parts
      then record {
        level = "medium";
        rule = "T2";
        basis = "Delay or anomaly observed in at least one domain; no safety intervention recorded";
      }
      else record {
        level = "low";
        rule = "T3";
        basis = "No delay or anomaly observed in the imported records";
      }
]

abbrev pub is_out : List BoardRow → String → Bool
is_out board d = elem d (map (λ r. r.domain) (keep (λ r. is_ruled_out r.placing.column) board))

-- `(-strength, name)` of one part is below that of another
abbrev pub stronger : String × Assessment → String × Assessment → Bool
stronger a b = lex_lt (strength b.1.status ∷ []) (strength a.1.status ∷ []) (not (text_le b.0 a.0))

-- `candidates`
abbrev pub candidates_of : List (String × Assessment) → List BoardRow → List (String × Assessment)
candidates_of parts board = sort_by stronger (keep (λ p. not (is_out board p.0)) parts)

pub record Owner : Type 0 where
  pub team : String
  pub owned : List String
  pub rule : String
  pub basis : String

abbrev pub nobody : Owner
nobody = record {
  team = "Unassigned (joint review)";
  owned = [];
  rule = "O3";
  basis = "No domain has measured delay or anomalies yet";
}

-- `tied`: the candidates that are as strong as the first
abbrev pub tied_with : ℕ → List (String × Assessment) → List (String × Assessment)
tied_with n cs = keep (λ c. nat_eq (strength c.1.status) n) cs

-- the owner of the tied parts, `OWNERS` and `NAMES` being the teams and the names of the parts of the run
abbrev pub owner_of_tied :
    (String → String) → (String → String) → List (String × Assessment) → Owner
owner_of_tied teams names tied = record {
  team = elim tied [
    | c ∷ [] ↦ teams c.0
    | others ↦ "Joint review: " & join ", " (map (λ c. teams c.0) others)
  ];
  owned = map (λ c. c.0) tied;
  rule = elim tied [ c ∷ [] ↦ "O1" | _ ↦ "O2" ];
  basis =
      "Strongest measured evidence: "
      & join ", " (map (λ c. names c.0 & (": " & spaced c.1.status)) tied);
}

unfoldable pub owner_of : (String → String) → (String → String) → List (String × Assessment) → Owner
owner_of teams names [] = nobody
owner_of teams names (c ∷ cs) =
    if leb 2 (strength c.1.status)
    then owner_of_tied teams names (tied_with (strength c.1.status) (c ∷ cs))
    else nobody

-- A part that stays open, or is routed away, with its team and its status or the reason.
pub record Routed : Type 0 where
  pub domain : String
  pub team : String
  pub why : String

abbrev is_quiet : Assessment → Bool
is_quiet a = a.status == "no_delay_observed_in_measured_part"

abbrev pub also_open : (String → String) → Owner → List (String × Assessment) → List Routed
also_open teams o cs =
    map (λ c. record { domain = c.0; team = teams c.0; why = c.1.status })
      (keep (λ c. not (elem c.0 o.owned) && not (is_quiet c.1)) cs)

abbrev pub route_away : (String → String) → List (String × Assessment) → List BoardRow → List Routed
route_away teams parts board =
    map
      (λ c. record {
        domain = c.0;
        team = teams c.0;
        why =
            if is_out board c.0
            then "ruled out by a person (scoped)"
            else "no delay in the measured part";
      })
      (keep (λ c. is_out board c.0 || is_quiet c.1) parts)

-- `history`: the triage entries
abbrev pub triage_history : List Entry → List Entry
triage_history ledger = keep (λ e. e.kind == "triage") ledger

abbrev pub handoffs_of : List Entry → ℕ
handoffs_of history = length (keep (λ e. truthy (get "handoff" e.payload)) history)

pub record Proposal : Type 0 where
  pub severity : Severity
  pub owner : Owner
  pub open_too : List Routed
  pub away : List Routed
  pub confirmed_by : Option Entry
  pub differs : Bool
  pub handoffs : ℕ
  pub handoff_warning : Option String

-- `propose(domains, board, interventions, ledger, owners, names)`
unfoldable pub propose :
    (String → String)
    → (String → String)
    → List (String × Assessment)
    → List BoardRow
    → List String
    → List Entry
    → Proposal
unfolding severity_of owner_of
propose teams names parts board interventions ledger =
    let s = severity_of parts interventions in
    let cs = candidates_of parts board in
    let o = owner_of teams names cs in
    let history = triage_history ledger in
    let n = handoffs_of history in
    record {
      severity = s;
      owner = o;
      open_too = also_open teams o cs;
      away = route_away teams parts board;
      confirmed_by = last? history;
      differs = elim (last? history) [
        | none ↦ false
        | some e ↦
            not (is_str s.level (get "severity" e.payload))
            || not (is_str o.team (get "owner" e.payload))
      ];
      handoffs = n;
      handoff_warning =
          if leb 2 n
          then some (
              "Ownership changed "
              & (number_text n
                  & " times. Review jointly with every team named, using this record, instead of another handoff."))
          else none;
    }

-- An earlier case of the machine.
pub record EarlierCase : Type 0 where
  pub case_id : String
  pub observed_domains : List String
  pub operators : List String

-- One note of `recurrence`.
pub record Recurrence : Type 0 where
  pub domain : String
  pub team : Option String
  pub prior_cases : List String
  pub different_operators : List String
  pub same_operator_seen_before : Bool
  pub text : String

abbrev all_operators : List EarlierCase → List String
all_operators [] = []
all_operators (h ∷ hs) = h.operators ++ all_operators hs

unfoldable pub recurrence_note :
    Platform
    → List EarlierCase
    → List String
    → List (String × String)
    → (String → String)
    → String
    → Recurrence
recurrence_note p matches operators_now teams names d =
    let now = map p.casefold operators_now in
    let others =
      sorted (distinct (keep (λ o. not (elem (p.casefold o) now)) (all_operators matches))) in
    let seen =
      names d
      & (": also observed in "
          & (number_text (length matches) & " earlier case(s) on this machine")) in
    record {
      domain = d;
      team = find_key d teams;
      prior_cases = map (λ h. h.case_id) matches;
      different_operators = others;
      same_operator_seen_before = any (λ o. elem (p.casefold o) now) (all_operators matches);
      text =
          if not (is_nil others) && not (is_nil now)
          then seen
            & (" with a different operator ("
                & (join ", " others
                    & "). A machine- or site-side cause becomes more plausible than operator technique (heuristic, not proof)."))
          else seen & ". Operators unknown or the same; no inference about technique.";
    }

-- `notes` of `recurrence(history, domains, operators_now, owners, names)`
unfoldable pub recurrence :
    Platform
    → List EarlierCase
    → List (String × Assessment)
    → List String
    → List (String × String)
    → (String → String)
    → List Recurrence
unfolding recurrence_note
recurrence p history [] operators_now teams names = []
recurrence p history ((d, a) ∷ parts) operators_now teams names =
    let rest = recurrence p history parts operators_now teams names in
    let matches = keep (λ h. elem d h.observed_domains) history in
    if shows_problem a && not (is_nil matches)
    then recurrence_note p matches operators_now teams names d ∷ rest
    else rest
