-- ===== src/Ledger/Rules/Confirm.antt =====
-- What a closure must carry when it calls the cause confirmed (`CONFIRMING_METHODS`,
-- `CONFIRMING_RECORD`).
-- The record that shows a cause: among the linked entries, one of the kind and with the result
-- that the method needs, and no simulation unless the case is synthetic.
use veyra_demo.Ledger.Accepted.{of_request}
use veyra_demo.Ledger.Confirmation.{
  by_id, confirming_kind, confirming_test, confirms, examined_domains, examines_other, has_note,
  is_some, require_confirming_record, some_confirms,
}
use veyra_demo.Ledger.Entry.{Entry}
use veyra_demo.Ledger.Lifecycle.{as_ledger_error}
use veyra_demo.Ledger.Payload.{choice, choice_if, id_list, read_choice, text_if}
use veyra_demo.Ledger.Platform.{Platform}
use veyra_demo.Ledger.Request.{Request, State, Validated, request}
use veyra_demo.Ledger.Validate.{dispatch, validate}
use veyra_demo.Ledger.Validate.Closure.{
  case_closure, closed_run, confirming_methods, engine_statuses, guard_confirmed, is_duration,
  run_id_of,
}
use veyra_demo.Prelude.{
  All-In, Bool, Bool-cases, In, List, Option, String, [], all_cons, all_nil, ap, arith, elem,
  elem-In, eq_iff, false, first, if◌then◌else◌, inl, inr, is_nil, keep-In, last?-In, later, none,
  not, refl, some, subst, sym, true, ℕ, ◌&&◌, ◌==◌, ◌||◌, ◌∙◌, ◌∷◌, ◌≡◌, ◌⊎◌,
}
use veyra_demo.Python.Result.{
  >>=-eq-ok, Ensures, Ensures-bind, Result, err, ledger_error, ok, ok_injective, raise_if,
  raise_if-not-ok, raise_if-ok, returns, ◌>>=◌,
}
use veyra_demo.Python.Text.{is_empty, join, ◌&◌}
use veyra_demo.Python.Value.{
  Dict, Value, empty, entry, get, member, null, obj, str, text?, texts, truthy,
}

-- A check that was executed on the part named as the cause: where its own proposal names domains, the part is
-- one of them, and otherwise where the review of it names some.
pub record IsOnPart (r : Request) (domain : Value) (e : Entry) : Type 0 where
  pub by_proposal :
      (proposal : Dict)
      → get "proposed" e.payload ≡ obj proposal
      → truthy (get "domains" proposal) ≡ true
      → member domain (get "domains" proposal) ≡ ok true
  pub by_examined :
      (examined : Value)
      → examined_domains r.entries e.payload ≡ ok examined
      → truthy examined ≡ true
      → member domain examined ≡ ok true

pub record Confirming (r : Request) (method : String) (domain : Value) (evidence : List String)
    : Type 0 where
  pub entry_id : String
  pub linked : In entry_id evidence
  pub shown_by : Entry
  pub stored : In shown_by r.entries
  pub of_kind : confirming_kind method ≡ some shown_by.kind
  pub passed : confirming_test method shown_by.payload ≡ true
  pub real :
      shown_by.kind ≡ "outcome"
      → truthy (get "simulated" shown_by.payload) ≡ true
      → r.state.synthetic ≡ true
  pub on_part :
      shown_by.kind ≡ "check_execution" → truthy domain ≡ true → IsOnPart r domain shown_by

-- What the accepted closure shows for a confirmed cause.
pub data Confirmed (r : Request) (v : Validated) : Type 0 where
  by_record :
      (method : String) (domain : Value) (evidence : List String)
      → get "confirmed_by" v.0 ≡ str method
      → get "cause_domain" v.0 ≡ domain
      → get "evidence_entries" v.0 ≡ texts evidence
      → In method confirming_methods
      → Confirming r method domain evidence
      → Confirmed r v
  by_note :
      (method note : String)
      → get "confirmed_by" v.0 ≡ str method
      → get "evidence_note" v.0 ≡ str note
      → In method confirming_methods
      → is_empty note ≡ false
      → Confirmed r v

by_id-In : (es : List Entry) (i : String) (e : Entry) → by_id es i ≡ some e → In e es
unfolding by_id
by_id-In es i e h = keep-In (λ (x : Entry). x.id == i) es e (last?-In _ e h)

kind_matches :
    (found : Option String) (kind : String)
    → elim found [ none ↦ false | some k ↦ kind == k ] ≡ true
    → found ≡ some kind
kind_matches none kind h = cc
kind_matches (some k) kind h = ap some (sym ((eq_iff kind k).0 h))

none_other : (m : Result Bool) → (do other ← m; ok (not other)) ≡ ok true → m ≡ ok false
none_other (ok false) h = refl
none_other (ok true) h = cc (ok_injective h)
none_other (err x) h = cc

passed_tests :
    (k t o s y : Bool) (m : Result Bool)
    → (if not k || not t
        then ok false
        else if o && s && not y
        then ok false
        else (do other ← m; ok (not other)))
      ≡ ok true
    → (k ≡ true) × (t ≡ true) × (o ≡ true → s ≡ true → y ≡ true) × (m ≡ ok false)
passed_tests true true true true true m h = (refl, refl, (λ _ _. refl), none_other m h)
passed_tests true true true true false m h = cc
passed_tests true true true false y m h = (refl, refl, (λ _ x. cc), none_other m h)
passed_tests true true false s y m h = (refl, refl, (λ x _. cc), none_other m h)
passed_tests true false o s y m h = cc
passed_tests false t o s y m h = cc

truthy_lookup : (k : String) (d : Dict) → truthy (get k d) ≡ true → truthy (obj d) ≡ true
truthy_lookup k empty h = cc
truthy_lookup k (entry j v d) h = refl

examined_domains-own :
    (es : List Entry) (payload proposal : Dict)
    → get "proposed" payload ≡ obj proposal
    → truthy (get "domains" proposal) ≡ true
    → examined_domains es payload ≡ ok (get "domains" proposal)
unfolding examined_domains
examined_domains-own es payload proposal e h = rw (e, truthy_lookup "domains" proposal h, h) refl

examines_other-not :
    (es : List Entry) (domain : Value) (e : Entry) (examined : Value)
    → e.kind ≡ "check_execution"
    → truthy domain ≡ true
    → examines_other es domain e ≡ ok false
    → examined_domains es e.payload ≡ ok examined
    → truthy examined ≡ true
    → member domain examined ≡ ok true
unfolding examines_other
examines_other-not es domain e examined kind named other found some_domains =
    here (member domain examined)
      (rw ((eq_iff e.kind "check_execution").1 kind, named, found, some_domains) at other)
  where
    here : (m : Result Bool) → (do h ← m; ok (not h)) ≡ ok false → m ≡ ok true
    here (ok true) h = refl
    here (ok false) h = cc (ok_injective h)
    here (err x) h = cc

confirms-Confirming :
    (r : Request) (method : String) (domain : Value) (evidence : List String) (i : String)
    (e : Entry)
    → In i evidence
    → by_id r.entries i ≡ some e
    → confirms method domain r.entries r.state.synthetic e ≡ ok true
    → Confirming r method domain evidence
unfolding confirms
confirms-Confirming r method domain evidence i e m found h =
    let (kind, test, simulated, other) = passed_tests _ _ (e.kind == "outcome") _ _ _ h in
    record {
      entry_id = i;
      linked = m;
      shown_by = e;
      stored = by_id-In r.entries i e found;
      of_kind = kind_matches _ _ kind;
      passed = test;
      real = λ o sim. simulated ((eq_iff _ _).1 o) sim;
      on_part = λ ran named. record {
        by_proposal = λ proposal own some_domains.
            examines_other-not r.entries domain e (get "domains" proposal) ran named other
              (examined_domains-own r.entries e.payload proposal own some_domains) some_domains;
        by_examined = λ examined. examines_other-not r.entries domain e examined ran named other;
      };
    }

some_confirms-Confirming :
    (r : Request) (method : String) (domain : Value) (evidence searched : List String)
    → ((i : String) → In i searched → In i evidence)
    → some_confirms method domain r.entries r.state.synthetic searched ≡ ok true
    → Confirming r method domain evidence
unfolding some_confirms
some_confirms-Confirming r method domain evidence [] sub h = cc
some_confirms-Confirming r method domain evidence (i ∷ is) sub h =
    go (by_id r.entries i) refl
      (some_confirms-Confirming r method domain evidence is (λ j m. sub j (later m)))
  where
    go :
        (found : Option Entry)
        → by_id r.entries i ≡ found
        → (some_confirms method domain r.entries r.state.synthetic is ≡ ok true
            → Confirming r method domain evidence)
        → Confirming r method domain evidence
    go none none_found rest = rest (rw (some_confirms, none_found) at h)
    go (some e) found rest =
        let (here, tried, h') =
          >>=-eq-ok (confirms method domain r.entries r.state.synthetic e) _
            (rw (some_confirms, found) at h) in
        elim (Bool-cases here) [
          | inl shown ↦
              confirms-Confirming r method domain evidence i e (sub i (first refl)) found
                (tried ∙ ap ok shown)
          | inr not_shown ↦ rest (rw not_shown at h')
        ]

-- Why a cause may be called confirmed.
data Grounds (r : Request) (domain : Value) (method : Option String) (evidence : List String)
    (remark : Option String) : Type 0 where
  record_shows :
      (m : String)
      → method ≡ some m
      → In m confirming_methods
      → Confirming r m domain evidence
      → Grounds r domain method evidence remark
  note_tells :
      (m n : String)
      → method ≡ some m
      → In m confirming_methods
      → remark ≡ some n
      → is_empty n ≡ false
      → Grounds r domain method evidence remark

confirming_kind-some :
    (m : String) → elem m confirming_methods ≡ true → is_some (confirming_kind m) ≡ true
unfolding confirming_kind
confirming_kind-some m h =
    All-In {P = λ x. is_some (confirming_kind x) ≡ true}
      (all_cons refl (all_cons refl (all_cons refl all_nil))) (elem-In m confirming_methods h)

as_ledger_error-ok {ℓ} : {A : Type ℓ} (m : Result A) {a : A} → as_ledger_error m ≡ ok a → m ≡ ok a
as_ledger_error-ok (ok a) h = h
as_ledger_error-ok (err e) h = ground arith

-- the record that is required without a note
require-Confirming :
    (r : Request) (m : String) (domain : Value) (evidence : List String) (remark : Option String)
    {u : Unit {0}}
    → elem m confirming_methods ≡ true
    → is_nil evidence ≡ false
    → has_note remark ≡ false
    → require_confirming_record m domain evidence r.entries remark r.state.synthetic ≡ ok u
    → Confirming r m domain evidence
unfolding require_confirming_record
require-Confirming r m domain evidence remark known linked silent h =
    let h' = rw (confirming_kind-some m known, linked, silent) at h in
    let (shown, searched, h'') =
      >>=-eq-ok (some_confirms m domain r.entries r.state.synthetic evidence) _ h' in
    some_confirms-Confirming r m domain evidence evidence (λ _ i. i)
      (searched ∙ ap ok (raise_if-not-ok _ _ h''))

has_note-cases :
    (remark : Option String)
    → (has_note remark ≡ false) ⊎ ((n : String) × (remark ≡ some n) × (is_empty n ≡ false))
has_note-cases none = inl refl
has_note-cases (some n) = elim (Bool-cases (is_empty n)) [
  | inl nothing ↦ inl (rw nothing)
  | inr told ↦ inr (n, refl, told)
]

-- an accepted closure does not call the cause confirmed, or shows why
abbrev ConfirmedOrNot : Request → Validated → Type 0
ConfirmedOrNot r v = get "investigation_status" v.0 ≡ str "cause_confirmed" → Confirmed r v

not_both : (a b c : Bool) → (a && b && not c) ≡ false → a ≡ true → c ≡ false → b ≡ false
not_both a b c h ha hc = ground arith

guard_confirmed-Grounds :
    (r : Request) (d : Dict) (method : Option String) (evidence : List String)
    (remark : Option String) {u : Unit {0}}
    → guard_confirmed r d "cause_confirmed" method evidence remark ≡ ok u
    → Grounds r (get "cause_domain" d) method evidence remark
unfolding guard_confirmed
guard_confirmed-Grounds r d none evidence remark h = cc h
guard_confirmed-Grounds r d (some m) evidence remark h =
    let (_, linked, h1) =
      >>=-eq-ok (raise_if (elem m confirming_methods && is_nil evidence && not (has_note remark)) _)
        _ h in
    let (_, known, h2) = >>=-eq-ok (raise_if (not (elem m confirming_methods)) _) _ h1 in
    let listed = raise_if-not-ok _ _ known in
    elim (has_note-cases remark) [
      | inl silent ↦ record_shows m refl (elem-In m confirming_methods listed) (
          require-Confirming r m (get "cause_domain" d) evidence remark listed
            (not_both _ (is_nil evidence) (has_note remark) (raise_if-ok _ _ linked) listed silent)
            silent (as_ledger_error-ok _ h2))
      | inr (n, same, told) ↦ note_tells m n refl (elem-In m confirming_methods listed) same told
    ]

Grounds-Confirmed :
    (r : Request) (v : Validated) (domain : Value) (method : Option String) (evidence : List String)
    (remark : Option String)
    → get "confirmed_by" v.0 ≡ text? method
    → get "cause_domain" v.0 ≡ domain
    → get "evidence_entries" v.0 ≡ texts evidence
    → get "evidence_note" v.0 ≡ text? remark
    → Grounds r domain method evidence remark
    → Confirmed r v
Grounds-Confirmed r v domain method evidence remark hm hd he hn (record_shows m same member shown) =
    by_record m domain evidence (hm ∙ ap text? same) hd he member shown
Grounds-Confirmed r v domain method evidence remark hm hd he hn
      (note_tells m n same member told filled) =
    by_note m n (hm ∙ ap text? same) (hn ∙ ap text? told) member filled

choice_if-get :
    (required : Bool) (d : Dict) (k : String) (options : List String) (o : Option String)
    → choice_if required d k options ≡ ok o
    → text? o ≡ get k d
unfolding choice_if read_choice
choice_if-get required d k options o h = go (get k d) h
  where
    go :
        (v : Value)
        → elim v [
          | null ↦
              if required
              then err (ledger_error ("'" & k & "' must be one of: " & join ", " options))
              else ok none
          | value ↦ do s ← read_choice k options value; ok (some s)
        ]
          ≡ ok o
        → text? o ≡ v
    go null g = elim (Bool-cases required) [
      | inl needed ↦ cc (rw needed at g)
      | inr optional ↦ subst (λ x. text? x ≡ null) (ok_injective (rw optional at g)) refl
    ]
    go (str s) g = elim (Bool-cases (elem s options)) [
      | inl listed ↦ subst (λ x. text? x ≡ str s) (ok_injective (rw listed at g)) refl
      | inr unlisted ↦ cc (rw unlisted at g)
    ]
    go _ g = cc

closure-Confirmed :
    (p : Platform) (r : Request) (d : Dict) → Ensures (ConfirmedOrNot r) (case_closure p r d)
unfolding case_closure
closure-Confirmed p r d = Ensures-bind (closed_run r.entries (get "run_id" d)) _ λ run _.
    Ensures-bind (raise_if (not (is_duration (get "hours_to_cause" d))) _) _ λ _ _.
      Ensures-bind (choice d "investigation_status" _) _ λ status _.
        let has_cause = elem status ("cause_confirmed" ∷ "cause_probable" ∷ []) in
        Ensures-bind (choice_if has_cause d "confirmed_by" _) _ λ method _.
          Ensures-bind (id_list d "evidence_entries" _ _) _ λ evidence _.
            Ensures-bind (text_if false d "evidence_note" 1000) _ λ remark _.
              Ensures-bind (guard_confirmed r d status method evidence remark) _ λ _ passed.
                Ensures-bind (choice d "resolution_status" _) _ λ resolution _.
                  Ensures-bind (text_if false d "fix" 1000) _ λ fix _.
                    Ensures-bind (run_id_of run) _ λ run_id _.
                      Ensures-bind (choice_if has_cause d "cause_domain" _) _ λ domain chosen.
                        Ensures-bind (text_if has_cause d "cause" 1000) _ λ cause _.
                          Ensures-bind (choice_if false d "fix_held" _) _ λ held _.
                            Ensures-bind
                              (text_if (resolution == "handed_over") d "handed_over_to" 300) _
                              λ handed _.
                                Ensures-bind (text_if false d "decisive_check" 200) _ λ decisive _.
                                  Ensures-bind (text_if false d "applies_when" 1000) _ λ applies _.
                                    Ensures-bind (text_if false d "would_have_saved_time" 2000) _
                                      λ saved _.
                                        Ensures-bind (choice_if false d "engineer_acceptance" _) _
                                          λ acceptance _.
                                            Ensures-bind (choice_if false d "symptom_after_fix" _) _
                                              λ symptom _.
                                                Ensures-bind (engine_statuses run) _ λ at_closure _.
                                                  returns _ (λ named.
                                                    let confirmed : status ≡ "cause_confirmed" =
                                                      cc named in
                                                    Grounds-Confirmed r _ (get "cause_domain" d)
                                                      method evidence remark refl
                                                      (choice_if-get has_cause d "cause_domain" _
                                                        domain chosen)
                                                      refl refl
                                                      (guard_confirmed-Grounds r d method evidence
                                                        remark
                                                        (subst
                                                          (λ x.
                                                            guard_confirmed r d x method evidence
                                                            remark
                                                            ≡ ok _)
                                                          confirmed passed)))

-- A closure that calls the cause confirmed names a method that can show it (inspection,
-- reproduction or a fix that worked), and either links a record of the case that shows it by that
-- method, or describes it in a note. A simulated outcome shows nothing unless the case is synthetic, and
-- an executed check only if it is on the part named as the cause, where it tells the parts that it examined.
pub validate-case_closure :
    (p : Platform) (payload actor : Value) (es : List Entry) (state : State) (now : ℕ)
    (trusted : Bool) (v : Validated)
    → validate p "case_closure" payload actor es state now trusted ≡ ok v
    → get "investigation_status" v.0 ≡ str "cause_confirmed"
    → Confirmed (request actor es state now trusted) v
unfolding dispatch
validate-case_closure p = of_request ConfirmedOrNot "case_closure" p (closure-Confirmed p)
