-- ===== src/Ledger/Chain/Tamper.antt =====
-- Tampering shows: two valid chains with one head hash hold the same entries, or two bodies collide.
use mathlib.Core.List.{reverse-reverse, reverse-cons, append_assoc, append-nil}
use native.Mathlib.Decide.{ℕ_discrete}
use veyra_demo.Ledger.Chain.{head_hash, is_valid, verify_chain}
use veyra_demo.Ledger.Chain.Valid.{Chained, end_hash, end_hash-eq-head_hash, verify_chain_iff}
use veyra_demo.Ledger.Entry.{Body, Entry, genesis}
use veyra_demo.Ledger.Platform.{IsHex, Platform}
use veyra_demo.Prelude.{
  Bool-cases, List, String, [], ap, eq_iff, false≢true, inl, inr, refl, reverse, sym, true, ◌++◌,
  ◌==◌, ◌∙◌, ◌∷◌, ◌≡◌, ◌≢◌, ◌⊎◌,
}
use veyra_demo.Python.Value.{Dict, Value}

-- Two different bodies with one digest.
abbrev pub Collision : Platform → Type 0
Collision p = (a : Body) × (b : Body) × (a ≢ b) × (p.digest a ≡ p.digest b)

String-discrete : Discrete String
String-discrete s t = elim (Bool-cases (s == t)) [
  | inl e ↦ yes ((eq_iff s t).0 e)
  | inr e ↦ no (λ h. false≢true (sym e ∙ (eq_iff s t).1 h))
]

Value-discrete : Discrete Value
Value-discrete = hlevel (ℕ_discrete, String-discrete)

Dict-discrete : Discrete Dict
Dict-discrete = hlevel (ℕ_discrete, String-discrete)

Body-discrete : Discrete Body
Body-discrete = hlevel (String-discrete, Dict-discrete)

-- The chain read from its end: `tip` is the hash of the newest entry.
abbrev ChainedBack : Platform → List Entry → String → Type 0
ChainedBack p [] tip = tip ≡ genesis
ChainedBack p (e ∷ es) tip =
    (e.hash ≡ tip) × (p.digest e.body ≡ e.hash) × ChainedBack p es e.prev_hash

-- `ys` continues `xs` backwards
back :
    (p : Platform) (previous : String) (done es : List Entry)
    → ChainedBack p done previous
    → Chained p previous es
    → ChainedBack p (reverse es ++ done) (end_hash previous es)
back p previous done [] hd h = hd
back p previous done (e ∷ es) hd (link, content, rest) =
    rw (reverse-cons, append_assoc) (back p e.hash (e ∷ done) es (refl, content, rw link hd) rest)

to_back :
    (p : Platform) (es : List Entry)
    → is_valid (verify_chain p es) ≡ true
    → ChainedBack p (reverse es) (head_hash es)
to_back p es v =
    rw (← append-nil (reverse es), ← end_hash-eq-head_hash es)
      (back p genesis [] es refl ((verify_chain_iff p es).1 v))

module _ (p : Platform) (hex : IsHex p) where
  same_back :
      (xs ys : List Entry) (h : String)
      → ChainedBack p xs h
      → ChainedBack p ys h
      → (xs ≡ ys) ⊎ Collision p
  same_back [] [] h ha hb = inl refl
  same_back [] (b ∷ ys) h ha hb = absurd (hex.digest-ne-genesis b.body (hb.1 ∙ hb.0 ∙ ha))
  same_back (a ∷ xs) [] h ha hb = absurd (hex.digest-ne-genesis a.body (ha.1 ∙ ha.0 ∙ hb))
  same_back (a ∷ xs) (b ∷ ys) h (ea, ca, ra) (eb, cb, rb) = elim (Body-discrete a.body b.body) [
    | no differ ↦ inr (a.body, b.body, differ, ca ∙ ea ∙ sym eb ∙ sym cb)
    | yes same ↦
        elim (same_back xs ys a.prev_hash ra (rw (ap (λ (x : Body). x.prev_hash) same) rb)) [
          | inr c ↦ inr c
          | inl rest ↦ inl (λ i. record { body = same i; hash = (ea ∙ sym eb) i } ∷ rest i)
        ]
  ]

  -- Two ledgers that both verify and end in the same hash are equal entry by entry, or they show
  -- two different bodies with the same digest.
  pub same_head :
      (xs ys : List Entry)
      → is_valid (verify_chain p xs) ≡ true
      → is_valid (verify_chain p ys) ≡ true
      → head_hash xs ≡ head_hash ys
      → (xs ≡ ys) ⊎ Collision p
  same_head xs ys va vb h =
      elim (same_back (reverse xs) (reverse ys) (head_hash xs) (to_back p xs va)
        (rw h (to_back p ys vb))) [
          | inr c ↦ inr c
          | inl e ↦ inl (sym (reverse-reverse xs) ∙ ap reverse e ∙ reverse-reverse ys)
        ]
