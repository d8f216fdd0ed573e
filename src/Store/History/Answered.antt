-- ===== src/Store/History/Answered.antt =====
-- What a history does to the state of one check of one run.
use veyra_demo.Ledger.Entry.{Entry}
use veyra_demo.Ledger.Lifecycle.{
  CheckState, answered, check_state, check_state_from, check_step, proposed,
}
use veyra_demo.Ledger.Moves.{CheckMove, answer, approve, reject, send, skip}
use veyra_demo.Ledger.Moves.Every.{MovesOrStays, validate-MovesOrStays}
use veyra_demo.Prelude.{
  Bool-cases, List, String, [], ap, eq_iff, inl, inr, keep-snoc_in, keep-snoc_out, refl, subst, sym,
  ◌++◌, ◌==◌, ◌∙◌, ◌∷◌, ◌≡◌,
}
use veyra_demo.Python.Value.{Value, str}
use veyra_demo.Store.History.{Reach, continue, start}
use veyra_demo.Store.History.Growth.{Growth, Step-Growth, grown, unchanged}
use veyra_demo.Store.History.Sound.{Written-case, Written-kind, Written-payload}
use veyra_demo.Store.Tables.{Db, Services, in_case, ledger_of}

-- Any number of arrows of the lifecycle.
pub data CheckPath (s : CheckState) : CheckState → Type 0 where
  stay : CheckPath s s
  advance : {t u : CheckState} → CheckPath s t → CheckMove t u → CheckPath s u

CheckPath-snoc : {s t u : CheckState} → CheckPath s t → MovesOrStays t u → CheckPath s u
CheckPath-snoc path (inl same) = subst (CheckPath _) (sym same) path
CheckPath-snoc path (inr move) = advance path move

check_state_from-snoc :
    (run : Value) (check_id : String) (s : CheckState) (es : List Entry) (e : Entry)
    → check_state_from run check_id s (es ++ e ∷ [])
      ≡ check_step run check_id (check_state_from run check_id s es) e
unfolding check_state_from
check_state_from-snoc run check_id s [] e = refl
check_state_from-snoc run check_id s (d ∷ es) e =
    check_state_from-snoc run check_id (check_step run check_id s d) es e

check_state-snoc :
    (run : Value) (check_id : String) (es : List Entry) (e : Entry)
    → check_state (es ++ e ∷ []) run check_id
      ≡ check_step run check_id (check_state es run check_id) e
unfolding check_state
check_state-snoc run check_id es e = check_state_from-snoc run check_id proposed es e

Growth-MovesOrStays :
    {s : Services} {db db' : Db}
    → Growth s db db'
    → (c run check_id : String)
    → MovesOrStays
        (check_state (ledger_of db c) (str run) check_id)
        (check_state (ledger_of db' c) (str run) check_id)
unfolding ledger_of
Growth-MovesOrStays (unchanged same) c run check_id =
    inl (ap (λ es. check_state (in_case c es) (str run) check_id) same)
Growth-MovesOrStays {s} {db} {db'} (grown f trusted w e u wr same) c run check_id =
    elim (Bool-cases (e.case_id == c)) [
      | inl own ↦
          let theirs : w.case_id ≡ c =
            sym (Written-case s f trusted w db e u wr) ∙ (eq_iff _ _).0 own in
          let next : in_case c db'.ledger ≡ in_case c db.ledger ++ e ∷ [] =
            ap (in_case c) same ∙ keep-snoc_in (λ (x : Entry). x.case_id == c) db.ledger e own in
          let moved : MovesOrStays (check_state (in_case w.case_id db.ledger) (str run) check_id) (
              check_step (str run) check_id
                (check_state (in_case w.case_id db.ledger) (str run) check_id) e) =
            validate-MovesOrStays s.platform w.kind w.payload w.actor (in_case w.case_id db.ledger)
              wr.state f.now trusted wr.validated wr.accepted e
              (Written-kind s f trusted w db e u wr) (Written-payload s f trusted w db e u wr) run
              check_id in
          subst (MovesOrStays (check_state (in_case c db.ledger) (str run) check_id))
            (sym (
              ap (λ es. check_state es (str run) check_id) next
              ∙ check_state-snoc (str run) check_id (in_case c db.ledger) e))
            (subst
              (λ k. MovesOrStays (check_state (in_case k db.ledger) (str run) check_id) (
                check_step (str run) check_id (check_state (in_case k db.ledger) (str run) check_id)
                  e))
              theirs moved)
      | inr other ↦ inl (
          ap (λ es. check_state es (str run) check_id)
            (ap (in_case c) same ∙ keep-snoc_out (λ (x : Entry). x.case_id == c) db.ledger e other))
    ]

-- Over any sequence of the store's calls that write the ledger (`append`, `append_trusted`, an investigation,
-- `execute_automatic`), failing ones among them, the state of each check of each run only ever walks along the arrows of
-- the lifecycle.
pub Reach-CheckPath :
    (s : Services) (db db' : Db)
    → Reach s db db'
    → (c run check_id : String)
    → CheckPath
        (check_state (ledger_of db c) (str run) check_id)
        (check_state (ledger_of db' c) (str run) check_id)
Reach-CheckPath s db db' start c run check_id = stay
Reach-CheckPath s db db' (continue {u} before step) c run check_id =
    CheckPath-snoc (Reach-CheckPath s db u before c run check_id)
      (Growth-MovesOrStays (Step-Growth step) c run check_id)

answered_is_final : {t : CheckState} → CheckMove answered t → ⊥
answered_is_final (approve h) = h
answered_is_final (reject h) = h
answered_is_final (send h) = h
answered_is_final (answer h) = h
answered_is_final (skip h) = h

CheckPath-answered : {s t : CheckState} → s ≡ answered → CheckPath s t → t ≡ answered
CheckPath-answered h stay = h
CheckPath-answered {s} {t = u} h (advance path move) =
    absurd (answered_is_final (subst (λ x. CheckMove x u) (CheckPath-answered h path) move))

-- A check that has a result keeps it: once answered, it is answered after any sequence of the store's calls that write
-- the ledger (`append`, `append_trusted`, an investigation, `execute_automatic`), failing ones among them.
pub Reach-answered :
    (s : Services) (db db' : Db)
    → Reach s db db'
    → (c run check_id : String) → check_state (ledger_of db c) (str run) check_id ≡ answered
    → check_state (ledger_of db' c) (str run) check_id ≡ answered
Reach-answered s db db' reach c run check_id h =
    CheckPath-answered h (Reach-CheckPath s db db' reach c run check_id)
