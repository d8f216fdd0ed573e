-- ===== src/Accounts/Shares.antt =====
-- Share links: `create_share`, `revoke_share` and `resolve_share`.
use veyra_demo.Accounts.{AccountsAction, AccountsDb, Crypto, Share}
use veyra_demo.Prelude.{
  Bool, List, Option, String, [], any, elem, false, if◌then◌else◌, leb, ltb, map, none, not, some,
  true, ℕ, ◌&&◌, ◌*◌, ◌++◌, ◌+◌, ◌==◌, ◌||◌, ◌∷◌,
}
use veyra_demo.Python.Result.{account_error, err, integrity_error, ok}

abbrev pub is_revoked : Share → Bool
is_revoked s = elim s.revoked_at [ none ↦ false | some _ ↦ true ]

-- `create_share(…, days=…)`, at a time and with the token and the id that it draws
unfoldable pub create_share :
    Crypto → ℕ → String → String → String → String → String → ℕ → AccountsAction (String × String)
create_share c now token share_id workspace_id case_id created_by days db =
    if not (leb 1 days && leb days 90)
    then (err (account_error "A share link lasts between 1 and 90 days"), db)
    else if elem (c.hash_token token) (map (λ s. s.token_hash) db.shares)
        || elem share_id (map (λ s. s.id) db.shares)
    then (err (integrity_error "UNIQUE constraint failed: shares"), db)
    else (
      ok (share_id, token),
      record db {
        shares =
            db.shares
            ++ record {
              token_hash = c.hash_token token;
              id = share_id;
              workspace_id = workspace_id;
              case_id = case_id;
              created_by = created_by;
              created_at = now;
              expires_at = now + days * 86400;
              revoked_at = none;
            }
              ∷ [];
      },
    )

-- `active` of `shares(workspace_id, case_id)`
abbrev pub is_active : ℕ → Share → Bool
is_active now s = not (is_revoked s) && ltb now s.expires_at

-- the rows that `revoke_share` updates
abbrev pub is_revocable : String → String → Share → Bool
is_revocable workspace_id share_id s =
    s.id == share_id && s.workspace_id == workspace_id && not (is_revoked s)

-- `revoke_share(workspace_id, share_id)`
unfoldable pub revoke_share : ℕ → String → String → AccountsAction (Unit {0})
revoke_share now workspace_id share_id db =
    if any (is_revocable workspace_id share_id) db.shares
    then (
      ok tt,
      record db {
        shares =
            map
              (λ (s : Share).
                if is_revocable workspace_id share_id s
                then record s { revoked_at = some now }
                else s)
              db.shares;
      },
    )
    else (err (account_error "No such active share link"), db)

unfoldable pub share_with : String → List Share → Option Share
share_with h [] = none
share_with h (s ∷ ss) = if s.token_hash == h then some s else share_with h ss

-- `resolve_share(token)`
unfoldable pub resolve_share : Crypto → ℕ → String → AccountsDb → Option Share
unfolding share_with
resolve_share c now token db = elim (share_with (c.hash_token token) db.shares) [
  | none ↦ none
  | some s ↦ if is_revoked s || ltb s.expires_at now then none else some s
]
