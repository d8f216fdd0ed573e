-- ===== src/Ledger/Rules/Window.antt =====
-- Observation windows of outcomes and recurrence checks, and reference windows.
use veyra_demo.Ledger.Accepted.{of_request}
use veyra_demo.Ledger.Entry.{Entry}
use veyra_demo.Ledger.Links.{find-In}
use veyra_demo.Ledger.Payload.{choice, id_list, text, time}
use veyra_demo.Ledger.Platform.{Platform, ReadsBack, aware}
use veyra_demo.Ledger.Request.{Request, State, Validated, find, request}
use veyra_demo.Ledger.Rules.Readers.{id_list-known, time-Past}
use veyra_demo.Ledger.Rules.Review.{find-kind}
use veyra_demo.Ledger.Validate.{dispatch, validate}
use veyra_demo.Ledger.Validate.Outcomes.{
  covers_window, guard_after_action, moment_of, moment_of_value, outcome, samples_of,
}
use veyra_demo.Prelude.{
  &&_split, All, Bool, In, List, String, [], any-In, ap, arith, eq_iff, false, is_nil, leb, leb-lt,
  leb→le, ltb-ge, not, refl, some, subst, sym, true, ℕ, ◌&&◌, ◌<◌, ◌==◌, ◌∙◌, ◌∷◌, ◌≡◌, ◌≢◌, ◌≤◌,
}
use veyra_demo.Python.Result.{Ensures, Ensures-bind, ok, raise_if, raise_if-ok, returns}
use veyra_demo.Python.Text.{is_empty}
use veyra_demo.Python.Value.{Dict, Value, get, is_str, item, item-get, str, texts}

-- the text is a date with an offset, at the instant `t`
abbrev pub IsAt : Platform → String → ℕ → Type 0
IsAt p s t = (z : ℕ) × (p.parse_iso s ≡ some (aware t z))

-- A window that has ended by `now`, from `start` to `end`.
pub record IsWindow (p : Platform) (now : ℕ) (from to : String) (start end : ℕ) : Type 0 where
  pub starts : IsAt p from start
  pub ends : IsAt p to end
  pub forward : start < end
  pub over : end ≤ now

moment_of-IsAt :
    (p : Platform) (s : String) (t u z : ℕ)
    → p.parse_iso s ≡ some (aware t z)
    → moment_of p s ≡ ok u
    → IsAt p s u
unfolding moment_of
moment_of-IsAt p s t u z at h =
    let same : t ≡ u = ground arith in (z, at ∙ ap (λ x. some (aware x z)) same)

time-moment :
    (p : Platform) (payload : Dict) (key s : String) (now u : ℕ)
    → ReadsBack p
    → time p payload key now ≡ ok s
    → moment_of p s ≡ ok u
    → IsAt p s u × (u ≤ now)
unfolding moment_of
time-moment p payload key s now u back h g =
    let (t, z, at, past) = time-Past p payload key s now back h in
    let same : t ≡ u = ground arith in
    ((z, at ∙ ap (λ x. some (aware x z)) same), subst (λ x. x ≤ now) same past)

IsWindow-intro :
    (p : Platform) (payload : Dict) (from_key to_key from to : String) (now start end : ℕ)
    → ReadsBack p
    → time p payload from_key now ≡ ok from
    → time p payload to_key now ≡ ok to
    → moment_of p from ≡ ok start
    → moment_of p to ≡ ok end
    → leb end start ≡ false
    → IsWindow p now from to start end
IsWindow-intro p payload from_key to_key from to now start end back hf ht ms me order =
    let (starts, _) = time-moment p payload from_key from now start back hf ms in
    let (ends, over) = time-moment p payload to_key to now end back ht me in
    record { starts = starts; ends = ends; forward = leb-lt end start order; over = over }

-- A sample of an import lies in the window.
pub record Covers (s : State) (evidence : List String) (start end : ℕ) : Type 0 where
  pub import_id : String
  pub attached : In import_id evidence
  pub sample_time : ℕ
  pub sampled : In sample_time (samples_of import_id s.import_sample_times)
  pub not_before : start ≤ sample_time
  pub not_after : sample_time ≤ end

covers_window-Covers :
    (s : State) (evidence : List String) (start end : ℕ)
    → covers_window s evidence start end ≡ true
    → Covers s evidence start end
unfolding covers_window
covers_window-Covers s evidence start end h =
    let (i, m, holds) = any-In _ evidence h in
    let (t, n, within) = any-In _ (samples_of i s.import_sample_times) holds in
    let (low, high) = &&_split _ _ within in
    record {
      import_id = i;
      attached = m;
      sample_time = t;
      sampled = n;
      not_before = leb→le start t low;
      not_after = leb→le t end high;
    }

-- What an accepted outcome states: its window is over and starts no earlier than the action, and
-- evidence that it attaches has a sample in the window.
pub record Observed (p : Platform) (r : Request) (v : Validated) : Type 0 where
  pub acted : Entry
  pub stored : In acted r.entries
  pub of_kind : acted.kind ≡ "action"
  pub linked : v.1 ≡ acted.id ∷ []
  pub done : get "status" acted.payload ≢ str "not_performed"
  pub from : String
  pub to : String
  pub start : ℕ
  pub end : ℕ
  pub names_from : get "observed_from" v.0 ≡ str from
  pub names_to : get "observed_to" v.0 ≡ str to
  pub window : IsWindow p r.now from to start end
  pub after_action :
      (s : String) (t : ℕ)
      → get "performed_at" acted.payload ≡ str s
      → is_empty s ≡ false
      → IsAt p s t
      → t ≤ start
  pub evidence : List String
  pub names_evidence : get "evidence" v.0 ≡ texts evidence
  pub imported : All (λ i. In i r.state.import_ids) evidence
  pub covered : get "verification" v.0 ≡ str "evidence_attached" → Covers r.state evidence start end

guard_after_action-after :
    (p : Platform) (acted : Entry) (start : ℕ) {u : Unit {0}}
    → guard_after_action p acted start ≡ ok u
    → (s : String) (t : ℕ) → get "performed_at" acted.payload ≡ str s
    → is_empty s ≡ false
    → IsAt p s t
    → t ≤ start
unfolding guard_after_action moment_of_value moment_of
guard_after_action-after p acted start h s t names filled (z, at) =
    ltb-ge start t (raise_if-ok _ _ (rw (names, filled, at) at h))

guarded : (a c : Bool) → (a && not c) ≡ false → a ≡ true → c ≡ true
guarded a c h k = ground arith

outcome-Observed :
    (p : Platform) (back : ReadsBack p) (r : Request) (d : Dict)
    → Ensures (Observed p r) (outcome p r d)
unfolding outcome
outcome-Observed p back r d =
    Ensures-bind (find r.entries (get "action_id" d) "action") _ λ acted found.
      Ensures-bind (item "status" acted.payload) _ λ acted_status read.
        Ensures-bind (raise_if (is_str "not_performed" acted_status) _) _ λ _ performed.
          Ensures-bind (choice d "result" _) _ λ result _.
            Ensures-bind (time p d "observed_from" r.now) _ λ from hf.
              Ensures-bind (time p d "observed_to" r.now) _ λ to ht.
                Ensures-bind (moment_of p to) _ λ end me.
                  Ensures-bind (moment_of p from) _ λ start ms.
                    Ensures-bind (raise_if (leb end start) _) _ λ _ order.
                      Ensures-bind (guard_after_action p acted start) _ λ _ after.
                        Ensures-bind (choice d "verification" _) _ λ verification _.
                          Ensures-bind (id_list d "evidence" r.state.import_ids "Evidence imports")
                            _
                            λ evidence known.
                              Ensures-bind
                                (raise_if (verification == "evidence_attached" && is_nil evidence)
                                  _)
                                _
                                λ _ some_evidence.
                                  Ensures-bind
                                    (raise_if
                                      (verification == "evidence_attached"
                                        && not (covers_window r.state evidence start end))
                                      _)
                                    _
                                    λ _ inside.
                                      Ensures-bind (text d "observations" 4000) _ λ observations _.
                                        returns _ (record {
                                          acted = acted;
                                          stored =
                                              find-In r.entries (get "action_id" d) "action" acted
                                                found;
                                          of_kind =
                                              find-kind r.entries (get "action_id" d) "action" acted
                                                found;
                                          linked = refl;
                                          done = λ same.
                                              let not_done : acted_status ≡ str "not_performed" =
                                                sym (item-get "status" acted.payload read) ∙ same in
                                              cc (
                                                subst (λ x. is_str "not_performed" x ≡ false)
                                                  not_done (raise_if-ok _ _ performed));
                                          from = from;
                                          to = to;
                                          start = start;
                                          end = end;
                                          names_from = refl;
                                          names_to = refl;
                                          window =
                                              IsWindow-intro p d "observed_from" "observed_to" from
                                                to r.now start end back hf ht ms me
                                                (raise_if-ok _ _ order);
                                          after_action =
                                              guard_after_action-after p acted start after;
                                          evidence = evidence;
                                          names_evidence = refl;
                                          imported =
                                              id_list-known d "evidence" "Evidence imports"
                                                r.state.import_ids evidence known;
                                          covered = λ attached.
                                              covers_window-Covers r.state evidence start end (
                                                guarded (verification == "evidence_attached") _
                                                  (raise_if-ok _ _ inside)
                                                  ((eq_iff _ _).1 (cc attached)));
                                        })

-- An outcome is accepted only for an action that was performed or simulated, with a window that is
-- over and does not start before the action; evidence is from the case's imports, and an outcome
-- that says so has a sample of it inside the window. Dates read back as they were printed.
pub validate-outcome :
    (p : Platform) (back : ReadsBack p) (payload actor : Value) (es : List Entry) (state : State)
    (now : ℕ) (trusted : Bool) (v : Validated)
    → validate p "outcome" payload actor es state now trusted ≡ ok v
    → Observed p (request actor es state now trusted) v
unfolding dispatch
validate-outcome p back = of_request (Observed p) "outcome" p (outcome-Observed p back)
