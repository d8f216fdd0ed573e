-- ===== src/Store/History/Sound.antt =====
-- The invariant of the ledger table, kept by every history.
use mathlib.Core.List.{append_assoc, append-nil}
use veyra_demo.Ledger.Chain.{build_entry, head_hash, is_valid, verify_chain}
use veyra_demo.Ledger.Chain.Valid.{verify-build_entry}
use veyra_demo.Ledger.Entry.{Entry, ids}
use veyra_demo.Ledger.Links.{IsEntryId}
use veyra_demo.Ledger.Links.Every.{validate-links}
use veyra_demo.Ledger.Platform.{Platform}
use veyra_demo.Ledger.Request.{actor_text}
use veyra_demo.Prelude.{
  All, Bool, Bool-cases, List, String, [], ap, elem, eq_iff, false, inl, inr, keep-snoc_in,
  keep-snoc_out, subst, subst₂, sym, true, ◌++◌, ◌==◌, ◌∙◌, ◌∷◌, ◌≡◌,
}
use veyra_demo.Store.Append.{Fresh, Write}
use veyra_demo.Store.History.{Reach, Step, continue, start}
use veyra_demo.Store.History.Growth.{Step-Growth, begun, grown, unchanged}
use veyra_demo.Store.Tables.{Db, Services, in_case, ledger_of}
use veyra_demo.Store.Written.{Written}

-- After `seen`, each entry has a new id, and links only entries of its own case before it.
abbrev pub Linked : List Entry → List Entry → Type 0
Linked seen [] = Unit
Linked seen (e ∷ es) =
    All (IsEntryId (in_case e.case_id seen)) e.links
    × (elem e.id (ids seen) ≡ false)
    × Linked (seen ++ e ∷ []) es

-- Each case's chain verifies, ids are new, and links go backwards within the case.
pub record IsSound (p : Platform) (es : List Entry) : Type 0 where
  pub chains : (c : String) → is_valid (verify_chain p (in_case c es)) ≡ true
  pub linked : Linked [] es

Linked-snoc :
    (seen es : List Entry) (e : Entry)
    → Linked seen es
    → All (IsEntryId (in_case e.case_id (seen ++ es))) e.links
    → elem e.id (ids (seen ++ es)) ≡ false
    → Linked seen (es ++ e ∷ [])
Linked-snoc seen [] e h links new = (
  subst (λ s. All (IsEntryId (in_case e.case_id s)) e.links) (append-nil seen) links,
  subst (λ s. elem e.id (ids s) ≡ false) (append-nil seen) new,
  tt,
)
Linked-snoc seen (d ∷ es) e h links new = (
  h.0,
  h.1,
  Linked-snoc (seen ++ d ∷ []) es e h.2
      (subst (λ s. All (IsEntryId (in_case e.case_id s)) e.links)
        (sym (append_assoc seen (d ∷ []) es)) links)
      (subst (λ s. elem e.id (ids s) ≡ false) (sym (append_assoc seen (d ∷ []) es)) new),
)

module _ (s : Services) (f : Fresh) (trusted : Bool) (w : Write) (db : Db) (e : Entry) (u : Db)
    (wr : Written s f trusted w (begun db) e u) where
  abbrev made : Entry
  made =
      build_entry s.platform f.entry_id w.case_id w.kind (actor_text w.actor) w.source f.recorded_at
        wr.validated.0 wr.validated.1 (head_hash (ledger_of (begun db) w.case_id))

  pub Written-case : e.case_id ≡ w.case_id
  unfolding build_entry
  Written-case = ap (λ (x : Entry). x.case_id) wr.built

  pub Written-kind : e.kind ≡ w.kind
  unfolding build_entry
  Written-kind = ap (λ (x : Entry). x.kind) wr.built

  pub Written-payload : e.payload ≡ wr.validated.0
  unfolding build_entry
  Written-payload = ap (λ (x : Entry). x.payload) wr.built

  Written-links : e.links ≡ wr.validated.1
  unfolding build_entry
  Written-links = ap (λ (x : Entry). x.links) wr.built

  known_links : All (IsEntryId (in_case e.case_id db.ledger)) e.links
  unfolding ledger_of
  known_links =
      subst₂ (λ c ls. All (IsEntryId (in_case c db.ledger)) ls) (sym Written-case)
        (sym Written-links)
        (validate-links s.platform w.kind w.payload w.actor (ledger_of (begun db) w.case_id)
          wr.state f.now trusted wr.validated wr.accepted)

  chain_grows : is_valid (verify_chain s.platform (in_case w.case_id db.ledger ++ e ∷ [])) ≡ true
  unfolding ledger_of
  chain_grows =
      subst (λ x. is_valid (verify_chain s.platform (in_case w.case_id db.ledger ++ x ∷ [])) ≡ true)
        (sym wr.built)
        (ap is_valid (
          verify-build_entry s.platform (ledger_of (begun db) w.case_id) f.entry_id w.case_id w.kind
            (actor_text w.actor) w.source f.recorded_at wr.validated.0 wr.validated.1 wr.chain))

  chains_grow :
      ((c : String) → is_valid (verify_chain s.platform (in_case c db.ledger)) ≡ true)
      → (c : String) → is_valid (verify_chain s.platform (in_case c (db.ledger ++ e ∷ []))) ≡ true
  chains_grow h c = elim (Bool-cases (e.case_id == c)) [
    | inl own ↦
        let same : w.case_id ≡ c = sym Written-case ∙ (eq_iff _ _).0 own in
        subst (λ es. is_valid (verify_chain s.platform es) ≡ true)
          (sym (keep-snoc_in (λ (x : Entry). x.case_id == c) db.ledger e own))
          (subst (λ k. is_valid (verify_chain s.platform (in_case k db.ledger ++ e ∷ [])) ≡ true)
            same chain_grows)
    | inr other ↦
        subst (λ es. is_valid (verify_chain s.platform es) ≡ true)
          (sym (keep-snoc_out (λ (x : Entry). x.case_id == c) db.ledger e other)) (h c)
  ]

  grown-IsSound : IsSound s.platform db.ledger → IsSound s.platform (db.ledger ++ e ∷ [])
  grown-IsSound h = record {
    chains = chains_grow h.chains;
    linked = Linked-snoc [] db.ledger e h.linked known_links wr.fresh;
  }

pub Step-IsSound :
    {s : Services} {db db' : Db}
    → IsSound s.platform db.ledger
    → Step s db db'
    → IsSound s.platform db'.ledger
Step-IsSound {s} {db} h step = elim (Step-Growth step) [
  | unchanged same ↦ subst (IsSound s.platform) (sym same) h
  | grown f trusted w e u wr same ↦
      subst (IsSound s.platform) (sym same) (grown-IsSound s f trusted w db e u wr h)
]

-- In every history that starts from a sound ledger, whatever calls succeed or fail: each case's
-- chain verifies, entry ids are unique, and every link of an entry is the id of an entry of the
-- same case that was written before it.
pub Reach-IsSound :
    (s : Services) (db db' : Db)
    → IsSound s.platform db.ledger
    → Reach s db db'
    → IsSound s.platform db'.ledger
Reach-IsSound s db db' h start = h
Reach-IsSound s db db' h (continue before step) = Step-IsSound (Reach-IsSound s db _ h before) step

-- The ledger is append-only: after any history it is the old ledger followed by new entries.
pub Reach-append_only :
    (s : Services) (db db' : Db)
    → Reach s db db'
    → (more : List Entry) × (db'.ledger ≡ db.ledger ++ more)
Reach-append_only s db db' start = ([], sym (append-nil db.ledger))
Reach-append_only s db db' (continue {u} before step) =
    let (more, same) = Reach-append_only s db u before in
    elim (Step-Growth step) [
      | unchanged still ↦ (more, still ∙ same)
      | grown f trusted w e v wr next ↦ (
        more ++ e ∷ [],
        next ∙ ap (λ es. es ++ e ∷ []) same ∙ append_assoc db.ledger more (e ∷ []),
      )
    ]
