-- ===== src/Advice/Board/Excluded.antt =====
-- What it takes for a part to stand as ruled out.
use veyra_demo.Advice.Assess.{out}
use veyra_demo.Advice.Board.{
  Assessment, BoardRow, Observation, Placed, board_row, covered, covered_from, excludes_all,
  exclusions, flagged_keys, has_delay_in, has_new_data, hypothesis_board, is_covered_by, is_flagged,
  key_parts, latest_verdict, new_data_note, observation_key, open_column, place, place_ruled_out,
  remaining_keys, ruled_out_column, supported_column, three_parts,
}
use veyra_demo.Ledger.Entry.{Entry}
use veyra_demo.Prelude.{
  &&_split, Bool, Bool-cases, In, In-keep, In-map, List, Option, String, [], ap, eq_iff, false,
  first, if◌then◌else◌, inl, inr, is_nil, keep, later, none, not, refl, some, some_injective, subst,
  sym, true, ◌&&◌, ◌==◌, ◌||◌, ◌∙◌, ◌∷◌, ◌≡◌, ◌⊎◌,
}
use veyra_demo.Python.Result.{
  >>=-eq-ok, In-traverse, Result, err, ok, ok_injective, select-none, ◌>>=◌,
}
use veyra_demo.Python.Text.{split_on}
use veyra_demo.Python.Text.Order.{In-distinct, In-sorted}
use veyra_demo.Python.Value.{Dict, get, is_str, obj, truthy, value_eq}

-- An exclusion, written `rule|signal|scope`, covers a finding: it has the finding's rule, and each of its other two
-- parts is the finding's or "*".
pub record Covers (finding exclusion : String) : Type 0 where
  pub rule : String
  pub signal : String
  pub scope : String
  pub of_signal : String
  pub of_scope : String
  pub reads : split_on 124 finding ≡ rule ∷ signal ∷ scope ∷ []
  pub names : split_on 124 exclusion ≡ rule ∷ of_signal ∷ of_scope ∷ []
  pub signals : (of_signal ≡ "*") ⊎ (of_signal ≡ signal)
  pub scopes : (of_scope ≡ "*") ⊎ (of_scope ≡ scope)

pub record IsExcluded (ledger : List Entry) (hashes : Option Dict) (domain : String)
    (a : Assessment) : Type 0 where
  pub verdict : Entry
  pub latest : latest_verdict ledger domain ≡ some verdict
  pub rules_out : is_str "ruled_out" (get "status" verdict.payload) ≡ true
  pub same_data :
      (now : Dict)
      → hashes ≡ some now
      → truthy (get "input_hashes" verdict.payload) ≡ true
      → value_eq (get "input_hashes" verdict.payload) (obj now) ≡ true
  pub covers :
      (o : Observation)
      → In o a.observations
      → is_flagged o ≡ true
      → (exclusions verdict.payload ≡ "*" ∷ [])
        ⊎ ((x : String) × In x (exclusions verdict.payload) × Covers (observation_key o) x)

remaining_keys-none :
    (excluded keys_now : List String)
    → remaining_keys excluded keys_now ≡ ok []
    → (k : String) → In k keys_now
    → (excludes_all excluded ≡ true) ⊎ (covered k excluded ≡ ok true)
unfolding remaining_keys
remaining_keys-none excluded keys_now h k m = elim (Bool-cases (excludes_all excluded)) [
  | inl everything ↦ inl everything
  | inr some_only ↦
      inr (certain (covered k excluded) (select-none _ keys_now (rw some_only at h) k m))
]
  where
    certain : (r : Result Bool) → (r >>= λ b. ok (not b)) ≡ ok false → r ≡ ok true
    certain (ok true) h = refl
    certain (ok false) h = cc (ok_injective h)
    certain (err e) h = cc

either_text : (a b : String) → (a == "*" || a == b) ≡ true → (a ≡ "*") ⊎ (a ≡ b)
either_text a b h = elim (Bool-cases (a == "*")) [
  | inl any_text ↦ inl ((eq_iff a "*").0 any_text)
  | inr other ↦ inr ((eq_iff a b).0 (rw other at h))
]

abbrev listed_parts : String × String × String → List String
listed_parts (rule, signal, scope) = rule ∷ signal ∷ scope ∷ []

three_parts-listed :
    (parts : List String) (g : String × String × String)
    → three_parts parts ≡ ok g
    → parts ≡ listed_parts g
three_parts-listed (a ∷ b ∷ c ∷ []) g h = ap listed_parts (ok_injective h)
three_parts-listed _ g h = cc

key_parts-split :
    (k : String) (g : String × String × String)
    → key_parts k ≡ ok g
    → split_on 124 k ≡ listed_parts g
unfolding key_parts
key_parts-split k g h = three_parts-listed (split_on 124 k) g h

is_covered_by-Covers :
    (finding exclusion : String) (k g : String × String × String)
    → key_parts finding ≡ ok k
    → key_parts exclusion ≡ ok g
    → is_covered_by k g ≡ true
    → Covers finding exclusion
is_covered_by-Covers finding exclusion (rule, signal, scope) (r, sg, sc) hk hg h =
    let (front, scopes) =
      &&_split (r == rule && (sg == "*" || sg == signal)) (sc == "*" || sc == scope) h in
    let (rules, signals) = &&_split (r == rule) (sg == "*" || sg == signal) front in
    record {
      rule = rule;
      signal = signal;
      scope = scope;
      of_signal = sg;
      of_scope = sc;
      reads = key_parts-split finding (rule, signal, scope) hk;
      names =
          subst (λ x. split_on 124 exclusion ≡ x ∷ sg ∷ sc ∷ []) ((eq_iff r rule).0 rules)
            (key_parts-split exclusion (r, sg, sc) hg);
      signals = either_text sg signal signals;
      scopes = either_text sc scope scopes;
    }

covered_from-Covers :
    (finding : String) (k : String × String × String) (xs : List String)
    → key_parts finding ≡ ok k
    → covered_from k xs ≡ ok true
    → (x : String) × In x xs × Covers finding x
unfolding covered_from
covered_from-Covers finding k [] hk h = cc (ok_injective h)
covered_from-Covers finding k (x ∷ xs) hk h =
    let (g, hg, h') = >>=-eq-ok (key_parts x) _ h in
    elim (Bool-cases (is_covered_by k g)) [
      | inl here ↦ (x, first refl, is_covered_by-Covers finding x k g hk hg here)
      | inr other ↦
          let (y, m, c) = covered_from-Covers finding k xs hk (rw other at h') in (y, later m, c)
    ]

covered-Covers :
    (finding : String) (xs : List String)
    → covered finding xs ≡ ok true
    → (x : String) × In x xs × Covers finding x
unfolding covered
covered-Covers finding xs h =
    let (k, hk, h') = >>=-eq-ok (key_parts finding) _ h in covered_from-Covers finding k xs hk h'

only_star : (xs : List String) → excludes_all xs ≡ true → xs ≡ "*" ∷ []
only_star [] h = cc
only_star (x ∷ []) h = ap (λ t. t ∷ []) ((eq_iff x "*").0 h)
only_star (x ∷ y ∷ xs) h = cc

no_new_data :
    (p now : Dict) (hashes : Option Dict)
    → has_new_data p hashes ≡ false
    → hashes ≡ some now
    → truthy (get "input_hashes" p) ≡ true
    → value_eq (get "input_hashes" p) (obj now) ≡ true
no_new_data p now none h e told = cc
no_new_data p now (some other) h e told =
    let same : other ≡ now = some_injective e in
    subst (λ d. value_eq (get "input_hashes" p) (obj d) ≡ true) same
      (not_not (value_eq (get "input_hashes" p) (obj other)) (rw told at h))
  where
    not_not : (b : Bool) → (true && not b) ≡ false → b ≡ true
    not_not true k = refl
    not_not false k = cc

flagged_key :
    (a : Assessment) (o : Observation)
    → In o a.observations
    → is_flagged o ≡ true
    → In (observation_key o) (flagged_keys a)
flagged_key a o m h = In-sorted _ _ (
    In-distinct _ _ (
      In-map observation_key (keep is_flagged a.observations)
        (In-keep is_flagged a.observations o m h)))

never : (b : Bool) → (if b then supported_column else open_column) ≡ ruled_out_column → ⊥
never true h = cc
never false h = cc

-- a part is placed as ruled out only where nothing remains and nothing is new
only_shut :
    (a : Assessment) (p : Dict) (remaining : List String) (fresh : Bool) (r : Placed)
    → (if not (is_nil remaining) || fresh
        then record {
          column = if has_delay_in a remaining then supported_column else open_column;
          partly = some (exclusions p, remaining);
          note = if fresh then some new_data_note else none;
        }
        else record { column = ruled_out_column; partly = none; note = none })
      ≡ r
    → r.column ≡ ruled_out_column
    → (fresh ≡ false) × (remaining ≡ [])
only_shut a p [] false r e c = (refl, refl)
only_shut a p [] true r e c =
    absurd (never (has_delay_in a []) (ap (λ (x : Placed). x.column) e ∙ c))
only_shut a p (x ∷ xs) fresh r e c =
    absurd (never (has_delay_in a (x ∷ xs)) (ap (λ (y : Placed). y.column) e ∙ c))

place_ruled_out-excluded :
    (a : Assessment) (p : Dict) (hashes : Option Dict) (r : Placed)
    → place_ruled_out a p hashes ≡ ok r
    → r.column ≡ ruled_out_column
    → (has_new_data p hashes ≡ false) × (remaining_keys (exclusions p) (flagged_keys a) ≡ ok [])
unfolding place_ruled_out
place_ruled_out-excluded a p hashes r h c =
    let (remaining, got, built) = >>=-eq-ok (remaining_keys (exclusions p) (flagged_keys a)) _ h in
    let (fresh, empty_list) =
      only_shut a p remaining (has_new_data p hashes) r (ok_injective built) c in
    (fresh, got ∙ ap ok empty_list)

place-excluded :
    (a : Assessment) (human : Option Entry) (hashes : Option Dict) (r : Placed)
    → place a human hashes ≡ ok r
    → r.column ≡ ruled_out_column
    → (e : Entry) × (human ≡ some e)
      × (is_str "ruled_out" (get "status" e.payload) ≡ true)
      × (place_ruled_out a e.payload hashes ≡ ok r)
unfolding place
place-excluded a none hashes r h c =
    absurd
      (never (a.status == "delay_observed") (ap (λ (x : Placed). x.column) (ok_injective h) ∙ c))
place-excluded a (some e) hashes r h c =
    elim (Bool-cases (is_str "ruled_out" (get "status" e.payload))) [
      | inl out ↦ (e, refl, out, rw out at h)
      | inr other ↦ absurd (
          not_shut (is_str "supported" (get "status" e.payload))
            (is_str "reopened" (get "status" e.payload)
              || is_str "weakened" (get "status" e.payload))
            (a.status == "delay_observed")
            (ap (λ (x : Placed). x.column) (ok_injective (rw other at h)) ∙ c))
    ]
  where
    not_shut :
        (s o d : Bool)
        → (if s
            then supported_column
            else if o
            then open_column
            else if d
            then supported_column
            else open_column)
          ≡ ruled_out_column
        → ⊥
    not_shut true o d h = cc
    not_shut false true d h = cc
    not_shut false false d h = never d h

-- A part of the machine stands as ruled out only if the last verdict that a person recorded on it rules it out; the
-- input hashes, where the verdict recorded some and the case's are given, are the same; and the verdict either excludes
-- everything or has, for every anomaly and delay found in the part, an exclusion that covers its rule, signal and scope.
pub hypothesis_board-IsExcluded :
    (parts : List (String × Assessment)) (ledger : List Entry) (owners : List (String × String))
    (hashes : Option Dict) (board : List BoardRow) (r : BoardRow)
    → hypothesis_board parts ledger owners hashes ≡ ok board
    → In r board
    → r.placing.column ≡ ruled_out_column
    → (a : Assessment) × In (r.domain, a) parts × IsExcluded ledger hashes r.domain a
unfolding hypothesis_board board_row
hypothesis_board-IsExcluded parts ledger owners hashes board r h m c =
    let ((domain, a), listed, built) = In-traverse (board_row ledger owners hashes) parts r h m in
    let (p, places, made) = >>=-eq-ok (place a (latest_verdict ledger domain) hashes) _ built in
    let row : r ≡ _ = sym (ok_injective made) in
    let (e, latest, out, shut) =
      place-excluded a (latest_verdict ledger domain) hashes p places
        (sym (ap (λ (x : BoardRow). x.placing.column) row) ∙ c) in
    let (same, left) =
      place_ruled_out-excluded a e.payload hashes p shut
        (sym (ap (λ (x : BoardRow). x.placing.column) row) ∙ c) in
    let here : r.domain ≡ domain = ap (λ (x : BoardRow). x.domain) row in
    (
      a,
      subst (λ d. In (d, a) parts) (sym here) listed,
      subst (λ d. IsExcluded ledger hashes d a) (sym here)
          (record {
            verdict = e;
            latest = latest;
            rules_out = out;
            same_data = λ now. no_new_data e.payload now hashes same;
            covers = λ o n f.
                elim (remaining_keys-none (exclusions e.payload) (flagged_keys a) left
                  (observation_key o) (flagged_key a o n f)) [
                    | inl everything ↦ inl (only_star (exclusions e.payload) everything)
                    | inr these ↦
                        inr (covered-Covers (observation_key o) (exclusions e.payload) these)
                  ];
          }),
    )
