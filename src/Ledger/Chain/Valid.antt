-- ===== src/Ledger/Chain/Valid.antt =====
-- What `verify_chain` decides: that the entries form a hash chain.
use veyra_demo.Ledger.Chain.{build_entry, head_hash, is_valid, valid, verify_chain, verify_from}
use veyra_demo.Ledger.Entry.{Entry, genesis}
use veyra_demo.Ledger.Platform.{Platform}
use veyra_demo.Prelude.{
  Bool-cases, List, String, [], ap₂, arith, eq_iff, inl, inr, length, length-append, refl, sym,
  true, ℕ, ◌++◌, ◌+◌, ◌==◌, ◌∙◌, ◌∷◌, ◌≡◌,
}
use veyra_demo.Python.Value.{Dict}

-- The entries hang on `previous`: each names the hash before it and carries the hash of its body.
abbrev pub Chained : Platform → String → List Entry → Type 0
Chained p previous [] = Unit
Chained p previous (e ∷ es) =
    (e.prev_hash ≡ previous) × (p.digest e.body ≡ e.hash) × Chained p e.hash es

-- the hash at the end of a chain that begins at `previous`
abbrev pub end_hash : String → List Entry → String
end_hash previous [] = previous
end_hash previous (e ∷ es) = end_hash e.hash es

pub verify_from_complete :
    (p : Platform) (previous : String) (index : ℕ) (es : List Entry)
    → Chained p previous es
    → verify_from p previous index es ≡ valid (index + length es) (end_hash previous es)
unfolding verify_from
verify_from_complete p previous index [] h = ground arith
verify_from_complete p previous index (e ∷ es) (link, content, rest) =
    rw
      (
        (eq_iff _ _).1 link,
        (eq_iff _ _).1 content,
        verify_from_complete p e.hash (index + 1) es rest,
      )
      (ground arith)

pub verify_from_sound :
    (p : Platform) (previous : String) (index : ℕ) (es : List Entry)
    → is_valid (verify_from p previous index es) ≡ true
    → Chained p previous es
unfolding verify_from
verify_from_sound p previous index [] h = tt
verify_from_sound p previous index (e ∷ es) h = elim (Bool-cases (e.prev_hash == previous)) [
  | inr bad ↦ ground arith
  | inl link ↦ elim (Bool-cases (p.digest e.body == e.hash)) [
    | inr bad ↦ ground arith
    | inl content ↦ (
      (eq_iff _ _).0 link,
      (eq_iff _ _).0 content,
      verify_from_sound p e.hash (index + 1) es (rw (link, content) at h),
    )
  ]
]

-- `verify_chain` answers "valid", with the number of entries and the last hash, exactly for the
-- entries that hang on GENESIS one on another and carry the hashes of their bodies.
pub verify_chain_iff :
    (p : Platform) (es : List Entry)
    → (Chained p genesis es → verify_chain p es ≡ valid (length es) (end_hash genesis es))
      × (is_valid (verify_chain p es) ≡ true → Chained p genesis es)
unfolding verify_chain
verify_chain_iff p es =
    (λ h. verify_from_complete p genesis 0 es h ∙ ground arith, verify_from_sound p genesis 0 es)

pub Chained-append :
    (p : Platform) (previous : String) (es : List Entry) (e : Entry)
    → Chained p previous es
    → e.prev_hash ≡ end_hash previous es
    → p.digest e.body ≡ e.hash
    → Chained p previous (es ++ e ∷ [])
Chained-append p previous [] e h link content = (link, content, tt)
Chained-append p previous (d ∷ es) e h link content =
    (h.0, h.1, Chained-append p d.hash es e h.2 link content)

end_hash-last :
    (previous : String) (e : Entry) (es : List Entry)
    → end_hash previous (e ∷ es) ≡ head_hash (e ∷ es)
unfolding head_hash
end_hash-last previous e [] = refl
end_hash-last previous e (f ∷ es) = end_hash-last e.hash f es

pub end_hash-eq-head_hash : (es : List Entry) → end_hash genesis es ≡ head_hash es
unfolding head_hash
end_hash-eq-head_hash [] = refl
end_hash-eq-head_hash (e ∷ es) = end_hash-last genesis e es

pub end_hash-append :
    (previous : String) (es : List Entry) (e : Entry) → end_hash previous (es ++ e ∷ []) ≡ e.hash
end_hash-append previous [] e = refl
end_hash-append previous (d ∷ es) e = end_hash-append d.hash es e

pub build_entry-Chained :
    (p : Platform) (es : List Entry) (id case_id kind actor source : String) (now : ℕ)
    (payload : Dict) (links : List String)
    → Chained p genesis es
    → Chained p genesis
        (es ++ build_entry p id case_id kind actor source now payload links (head_hash es) ∷ [])
unfolding build_entry
build_entry-Chained p es id case_id kind actor source now payload links h =
    Chained-append p genesis es _ h (sym (end_hash-eq-head_hash es)) refl

-- An entry that `build_entry` makes on the last hash keeps a valid chain valid; the report then
-- counts one entry more, and its head is the new entry's hash.
pub verify-build_entry :
    (p : Platform) (es : List Entry) (id case_id kind actor source : String) (now : ℕ)
    (payload : Dict) (links : List String)
    → is_valid (verify_chain p es) ≡ true
    → let e = build_entry p id case_id kind actor source now payload links (head_hash es) in
      verify_chain p (es ++ e ∷ []) ≡ valid (length es + 1) e.hash
verify-build_entry p es id case_id kind actor source now payload links h =
    let e = build_entry p id case_id kind actor source now payload links (head_hash es) in
    let chained =
      build_entry-Chained p es id case_id kind actor source now payload links
        ((verify_chain_iff p es).1 h) in
    (verify_chain_iff p (es ++ e ∷ [])).0 chained
    ∙ ap₂ valid (length-append es (e ∷ []) ∙ omega arith) (end_hash-append genesis es e)
