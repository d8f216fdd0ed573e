-- ===== src/Accounts/Revoked.antt =====
-- A revoked share link.
use veyra_demo.Accounts.{AccountsDb, Crypto, Share}
use veyra_demo.Accounts.Shares.{is_revocable, is_revoked, resolve_share, revoke_share, share_with}
use veyra_demo.Prelude.{
  Bool-cases, In, List, Option, String, [], any, arith, eq_iff, false, first, if◌then◌else◌, inl,
  inr, later, ltb, ltb-ge, map, map-In, neither, none, refl, some, some_injective, subst, sym, ℕ,
  ◌==◌, ◌||◌, ◌∷◌, ◌≡◌, ◌≤◌,
}
use veyra_demo.Python.Result.{ok}

share_with-found :
    (h : String) (ss : List Share) (s : Share)
    → share_with h ss ≡ some s
    → In s ss × (s.token_hash ≡ h)
unfolding share_with
share_with-found h [] s g = cc
share_with-found h (r ∷ ss) s g = elim (Bool-cases (r.token_hash == h)) [
  | inl here ↦
      let same : r ≡ s = cc (rw here at g) in
      (first (sym same), subst (λ (x : Share). x.token_hash ≡ h) same ((eq_iff _ _).0 here))
  | inr other ↦ let (m, t) = share_with-found h ss s (rw other at g) in (later m, t)
]

-- What a token resolves to: a stored link of its hash that is neither revoked nor over.
pub record IsOpenLink (c : Crypto) (now : ℕ) (token : String) (db : AccountsDb) (s : Share)
    : Type 0 where
  pub stored : In s db.shares
  pub of_token : s.token_hash ≡ c.hash_token token
  pub standing : is_revoked s ≡ false
  pub unexpired : now ≤ s.expires_at

-- A share link opens a case only while its row is stored, has not been revoked and has not expired.
resolve_share-IsOpenLink :
    (c : Crypto) (now : ℕ) (token : String) (db : AccountsDb) (s : Share)
    → resolve_share c now token db ≡ some s
    → IsOpenLink c now token db s
unfolding resolve_share
resolve_share-IsOpenLink c now token db s h = go (share_with (c.hash_token token) db.shares) refl h
  where
    go :
        (o : Option Share)
        → share_with (c.hash_token token) db.shares ≡ o
        → elim o [
          | none ↦ none
          | some r ↦ if is_revoked r || ltb r.expires_at now then none else some r
        ]
          ≡ some s
        → IsOpenLink c now token db s
    go none found g = cc g
    go (some r) found g = elim (Bool-cases (is_revoked r || ltb r.expires_at now)) [
      | inl shut ↦ cc (rw shut at g)
      | inr fine ↦
          let same : r ≡ s = some_injective (rw fine at g) in
          let (m, t) = share_with-found (c.hash_token token) db.shares r found in
          let (standing, fresh) = neither _ _ fine in
          subst (IsOpenLink c now token db) same (record {
            stored = m;
            of_token = t;
            standing = standing;
            unexpired = ltb-ge r.expires_at now fresh;
          })
    ]

revoked_row :
    (now : ℕ) (w i : String) (ss : List Share) (s : Share)
    → In s (
        map
          (λ (r : Share). if is_revocable w i r then record r { revoked_at = some now } else r)
          ss)
    → is_revocable w i s ≡ false
revoked_row now w i ss s m =
    let (r, n, same) =
      map-In (λ (r : Share). if is_revocable w i r then record r { revoked_at = some now } else r)
        ss s m in
    subst (λ x. is_revocable w i x ≡ false) (sym same) (row r)
  where
    row :
        (r : Share)
        → is_revocable w i (if is_revocable w i r then record r { revoked_at = some now } else r)
          ≡ false
    row r = elim (Bool-cases (is_revocable w i r)) [
      | inl yes_revoke ↦ rw yes_revoke (ground arith)
      | inr other ↦ rw other other
    ]

-- Once a link has been revoked, no token and no later time resolves to it.
pub revoke_share-ended :
    (c : Crypto) (now then_at : ℕ) (workspace_id share_id token : String) (db : AccountsDb)
    (s : Share)
    → (revoke_share now workspace_id share_id db).0 ≡ ok tt
    → resolve_share c then_at token (revoke_share now workspace_id share_id db).1 ≡ some s
    → ¬ ((s.id ≡ share_id) × (s.workspace_id ≡ workspace_id))
unfolding revoke_share
revoke_share-ended c now then_at workspace_id share_id token db s h g (same_id, same_workspace) =
    elim (Bool-cases (any (is_revocable workspace_id share_id) db.shares)) [
      | inr none_there ↦ cc (rw none_there at h)
      | inl some_there ↦
          let link = resolve_share-IsOpenLink c then_at token _ s (rw some_there at g) in
          let row = revoked_row now workspace_id share_id db.shares s link.stored in
          cc (rw ((eq_iff _ _).1 same_id, (eq_iff _ _).1 same_workspace, link.standing) at row)
    ]
