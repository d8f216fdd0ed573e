-- ===== src/Engine/Outcomes/Names.antt =====
-- The names that the ledger accepts for an outcome and the table that the planner reads agree.
use veyra_demo.Engine.Outcomes.{aliases, find_key, find_table, outcome_names, outcome_of, splits}
use veyra_demo.Prelude.{
  Bool, Bool-cases, List, Option, String, [], ap₂, arith, elem, eq_iff, false, inl, inr, map, none,
  refl, some, subst, sym, true, ◌++◌, ◌==◌, ◌||◌, ◌∙◌, ◌∷◌, ◌≡◌,
}

elem-append : (k : String) (xs ys : List String) → elem k (xs ++ ys) ≡ (elem k xs || elem k ys)
elem-append k [] ys = refl
elem-append k (x ∷ xs) ys = ground (arith, elem-append k xs ys)

abbrev pub is_found {ℓ} : {A : Type ℓ} → Option A → Bool
is_found none = false
is_found (some a) = true

find_key-elem {ℓ} :
    {A : Type ℓ} (k : String) (t : List (String × A))
    → elem k (map (λ r. r.0) t) ≡ is_found (find_key k t)
find_key-elem k [] = refl
find_key-elem k ((j, v) ∷ t) = elim (Bool-cases (j == k)) [
  | inl here ↦ rw here refl
  | inr other ↦ rw other (find_key-elem k t)
]

abbrev resolve : String → Option String → String
resolve name alias = elim alias [ none ↦ name | some k ↦ k ]

-- the two tables of one check, when each alias stands for a name of the first
resolve-found {ℓ} :
    {A : Type ℓ} (named : List (String × A)) (older : List (String × String))
    → ((k target : String)
        → find_key k older ≡ some target
        → is_found (find_key target named) ≡ true)
    → (name : String)
    → elem name (map (λ r. r.0) named ++ map (λ r. r.0) older)
      ≡ is_found (find_key (resolve name (find_key name older)) named)
resolve-found {A} named older resolves name =
    elem-append name _ _
    ∙ ap₂ (λ a b. a || b) (find_key-elem name named) (find_key-elem name older)
    ∙ go (find_key name older) refl
  where
    go :
        (alias : Option String)
        → find_key name older ≡ alias
        → (is_found (find_key name named) || is_found alias)
          ≡ is_found (find_key (resolve name alias) named)
    go none h = ground arith
    go (some k) h = ground (arith, resolves name k h)

no_aliases :
    (check_id : String)
    → ("CHK-CONTROLLER-LOGS" == check_id) ≡ false
    → find_table check_id aliases ≡ []
no_aliases check_id other = rw (find_table, find_key, other) refl

alias_resolves :
    (check_id k target : String)
    → find_key k (find_table check_id aliases) ≡ some target
    → is_found (find_key target (find_table check_id splits)) ≡ true
alias_resolves check_id k target h = elim (Bool-cases ("CHK-CONTROLLER-LOGS" == check_id)) [
  | inr other ↦
      let gone : none ≡ some target =
        subst (λ t. find_key k t ≡ some target) (no_aliases check_id other) h in
      cc gone
  | inl same ↦
      subst (λ c. is_found (find_key target (find_table c splits)) ≡ true) ((eq_iff _ _).0 same)
        (targets (
          subst (λ c. find_key k (find_table c aliases) ≡ some target) (sym ((eq_iff _ _).0 same))
            h))
]
  where
    targets :
        find_key k (
            ("application_fault", "controller_action_first")
            ∷ ("external_trigger", "link_loss_first")
            ∷ [])
          ≡ some target
        → is_found (find_key target (find_table "CHK-CONTROLLER-LOGS" splits)) ≡ true
    targets g = elim (Bool-cases ("application_fault" == k)) [
      | inl e ↦
          let same : "controller_action_first" ≡ target = cc (rw e at g) in
          subst (λ t. is_found (find_key t (find_table "CHK-CONTROLLER-LOGS" splits)) ≡ true) same
            refl
      | inr n ↦ elim (Bool-cases ("external_trigger" == k)) [
        | inl e ↦
            let same : "link_loss_first" ≡ target = cc (rw (n, e) at g) in
            subst (λ t. is_found (find_key t (find_table "CHK-CONTROLLER-LOGS" splits)) ≡ true) same
              refl
        | inr m ↦ cc (rw (n, m) at g)
      ]
    ]

-- A check's outcome has a definition exactly when its name is one that an execution of the check
-- may record: each name of the table, and each older name, which stands for one of the table.
pub outcome_of-outcome_names :
    (check_id name : String)
    → elem name (outcome_names check_id) ≡ is_found (outcome_of check_id (some name))
unfolding outcome_of outcome_names
outcome_of-outcome_names check_id name =
    resolve-found (find_table check_id splits) (find_table check_id aliases)
      (alias_resolves check_id) name
