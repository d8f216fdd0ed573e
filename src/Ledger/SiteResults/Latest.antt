-- ===== src/Ledger/SiteResults/Latest.antt =====
-- Which result stands for a check.
-- the executions of a check, and those of them in a run, or performed
use veyra_demo.Engine.Outcomes.{find_key}
use veyra_demo.Ledger.Entry.{Entry}
use veyra_demo.Ledger.SiteResults.{
  SiteResult, is_here, of_this_run, put, site_result, site_results, site_results_from, site_step,
}
use veyra_demo.Prelude.{
  Bool, Bool-cases, List, Option, String, [], ap, eq_iff, false, if◌then◌else◌, inl, inr, keep,
  last?, none, not, refl, same_text, some, subst, sym, true, ◌&&◌, ◌==◌, ◌||◌, ◌∙◌, ◌∷◌, ◌≡◌,
}
use veyra_demo.Python.Value.{Value, arr, bool, float, get, int, is_str, null, obj, str}

abbrev pub is_run_of : String → Entry → Bool
is_run_of check_id e = e.kind == "check_execution" && is_str check_id (get "check_id" e.payload)

abbrev pub of_run : Value → String → Entry → Bool
of_run run_id check_id e = is_run_of check_id e && is_here run_id e

abbrev pub performed_of : String → Entry → Bool
performed_of check_id e = is_run_of check_id e && is_str "performed" (get "status" e.payload)

-- the last of them that satisfies a test, on top of what stood before
abbrev latest : (Entry → Bool) → Bool → Option SiteResult → List Entry → Option SiteResult
latest test here before es = elim (last? (keep test es)) [
  | none ↦ before
  | some e ↦ some (site_result e here)
]

abbrev pub standing : Value → String → Option SiteResult → List Entry → Option SiteResult
standing run_id check_id before es =
    latest (of_run run_id check_id) true
      (if of_this_run before then before else latest (performed_of check_id) false before es) es

find_key-put :
    (k c : String) (s : SiteResult) (t : List (String × SiteResult))
    → find_key c (put k s t) ≡ (if k == c then some s else find_key c t)
find_key-put k c s [] = refl
find_key-put k c s ((j, b) ∷ t) = elim (Bool-cases (j == k)) [
  | inl same ↦
      let j_k : j ≡ k = (eq_iff _ _).0 same in
      rw same (
        subst
          (λ x.
            (if x == c then some s else find_key c t)
            ≡ (if k == c then some s else if x == c then some b else find_key c t))
          (sym j_k) (elim (Bool-cases (k == c)) [ inl at ↦ rw at refl | inr off ↦ rw off refl ]))
  | inr other ↦ elim (Bool-cases (j == c)) [
    | inr off ↦ rw (other, off) (find_key-put k c s t)
    | inl at ↦ elim (Bool-cases (k == c)) [
      | inr off ↦ rw (other, at, off) refl
      | inl at_k ↦ cc (rw ((eq_iff _ _).1 ((eq_iff _ _).0 at ∙ sym ((eq_iff _ _).0 at_k))) at other)
    ]
  ]
]

-- one round, seen at one check
unfoldable key_step : Value → String → Option SiteResult → Entry → Option SiteResult
key_step run_id c o e =
    if of_run run_id c e
    then some (site_result e true)
    else if performed_of c e && not (of_this_run o)
    then some (site_result e false)
    else o

step_at :
    (c : String) (e : Entry) (out : List (String × SiteResult)) (here performed : Bool) (v : Value)
    → find_key c (elim v [
      | str k ↦
          if here || performed
          then (if here || not (of_this_run (find_key k out))
              then put k (site_result e here) out
              else out)
          else out
      | _ ↦ out
    ])
      ≡ (if is_str c v && here
          then some (site_result e true)
          else if (is_str c v && performed) && not (of_this_run (find_key c out))
          then some (site_result e false)
          else find_key c out)
step_at c e out here performed null = refl
step_at c e out here performed (bool b) = refl
step_at c e out here performed (int n) = refl
step_at c e out here performed (float x) = refl
step_at c e out here performed (arr vs) = refl
step_at c e out here performed (obj d) = refl
step_at c e out here performed (str k) = elim (Bool-cases (k == c)) [
  | inl at ↦ let k_c : k ≡ c = (eq_iff _ _).0 at in rw at (rw k_c (at_self here performed))
  | inr off ↦
      rw off (other_key off (here || performed) (here || not (of_this_run (find_key k out))))
]
  where
    other_key :
        (k == c) ≡ false
        → (a b : Bool)
        → find_key c (if a then if b then put k (site_result e here) out else out else out)
          ≡ find_key c out
    other_key off true true = find_key-put k c (site_result e here) out ∙ (rw off refl)
    other_key off true false = refl
    other_key off false b = refl

    put_self : (f : SiteResult) → find_key c (put c f out) ≡ some f
    put_self f = find_key-put c c f out ∙ rw (same_text c) refl

    at_self :
        (here performed : Bool)
        → find_key c (
            if here || performed
            then if here || not (of_this_run (find_key c out))
              then put c (site_result e here) out
              else out
            else out)
          ≡ (if here
              then some (site_result e true)
              else if performed && not (of_this_run (find_key c out))
              then some (site_result e false)
              else find_key c out)
    at_self true performed = put_self (site_result e true)
    at_self false false = refl
    at_self false true = elim (Bool-cases (of_this_run (find_key c out))) [
      | inl kept ↦ rw kept refl
      | inr older ↦ rw older (put_self (site_result e false))
    ]

find_key-site_step :
    (run_id : Value) (c : String) (out : List (String × SiteResult)) (e : Entry)
    → find_key c (site_step run_id out e) ≡ key_step run_id c (find_key c out) e
unfolding site_step key_step
find_key-site_step run_id c out e = elim (Bool-cases (e.kind == "check_execution")) [
  | inl execution ↦ rw execution (
      step_at c e out (is_here run_id e) (is_str "performed" (get "status" e.payload))
        (get "check_id" e.payload))
  | inr other ↦ rw other refl
]

latest-cons :
    (test : Entry → Bool) (here : Bool) (before : Option SiteResult) (e : Entry) (es : List Entry)
    → latest test here before (e ∷ es)
      ≡ latest test here (if test e then some (site_result e here) else before) es
latest-cons test here before e es = elim (Bool-cases (test e)) [
  | inr out ↦
      let skipped : keep test (e ∷ es) ≡ keep test es = rw out refl in
      ap (λ xs. elim (last? xs) [ none ↦ before | some x ↦ some (site_result x here) ]) skipped
      ∙ rw out refl
  | inl found ↦
      let kept : keep test (e ∷ es) ≡ e ∷ keep test es = rw found refl in
      ap (λ xs. elim (last? xs) [ none ↦ before | some x ↦ some (site_result x here) ]) kept
      ∙ last_of (keep test es)
      ∙ rw found refl
]
  where
    last_of :
        (xs : List Entry)
        → elim (last? (e ∷ xs)) [ none ↦ before | some x ↦ some (site_result x here) ]
          ≡ elim (last? xs) [
            | none ↦ some (site_result e here)
            | some x ↦ some (site_result x here)
          ]
    last_of [] = refl
    last_of (x ∷ []) = refl
    last_of (x ∷ y ∷ xs) = last_of (y ∷ xs)

standing-cons :
    (run_id : Value) (c : String) (before : Option SiteResult) (e : Entry) (es : List Entry)
    → standing run_id c before (e ∷ es) ≡ standing run_id c (key_step run_id c before e) es
unfolding key_step
standing-cons run_id c before e es =
    latest-cons (of_run run_id c) true _ e es ∙ elim (Bool-cases (of_run run_id c e)) [
      | inl here ↦ rw here refl
      | inr elsewhere ↦
          rw (elsewhere, latest-cons (performed_of c) false before e es)
            (elim (Bool-cases (of_this_run before)) [
              | inl kept ↦ elim (Bool-cases (performed_of c e)) [
                | inl p ↦ rw (kept, p) (rw kept refl)
                | inr p ↦ rw (kept, p) (rw kept refl)
              ]
              | inr open_one ↦ elim (Bool-cases (performed_of c e)) [
                | inl p ↦ rw (open_one, p) refl
                | inr p ↦ rw (open_one, p) (rw open_one refl)
              ]
            ])
    ]

find_key-site_results_from :
    (es : List Entry) (run_id : Value) (c : String) (out : List (String × SiteResult))
    → find_key c (site_results_from run_id out es) ≡ standing run_id c (find_key c out) es
unfolding site_results_from
find_key-site_results_from [] run_id c out = elim (Bool-cases (of_this_run (find_key c out))) [
  | inl yes_here ↦ rw yes_here refl
  | inr elsewhere ↦ rw elsewhere refl
]
find_key-site_results_from (e ∷ es) run_id c out =
    find_key-site_results_from es run_id c (site_step run_id out e)
    ∙ ap (λ o. standing run_id c o es) (find_key-site_step run_id c out e)
    ∙ sym (standing-cons run_id c (find_key c out) e es)

-- For every check, the result that stands is the last one that was recorded for it in this run and, when the
-- run has none, the last one of any run that was performed; a check without either has no result.
pub site_results-standing :
    (ledger : List Entry) (run_id : Value) (check_id : String)
    → find_key check_id (site_results ledger run_id) ≡ standing run_id check_id none ledger
unfolding site_results
site_results-standing ledger run_id check_id = find_key-site_results_from ledger run_id check_id []
