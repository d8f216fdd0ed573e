-- ===== src/Accounts/Keys.antt =====
-- The keys of the accounts' tables, over any sequence of calls.
-- Emails, user ids and the hashes and ids of tokens and links are unique.
use veyra_demo.Accounts.{
  AccountsDb, Crypto, Session, Share, User, clean_email, hash_password, lockout_failures, user_with,
}
use veyra_demo.Accounts.People.{
  add_user, add_workspace, has_workspace, insert_workspace, is_email_from, is_workspace_id, slug,
}
use veyra_demo.Accounts.Sessions.{
  end_sessions, failures_of, forget_failures, has_user, login, logout, may_sign_in, open_session,
  purge, set_disabled, set_password, sign_in, update_users, wrong,
}
use veyra_demo.Accounts.Shares.{create_share, is_revocable, revoke_share}
use veyra_demo.Prelude.{
  Bool, Bool-cases, List, Option, String, [], any, elem, false, if◌then◌else◌, inl, inr, leb, ltb,
  map, neither, none, not, refl, some, subst, sym, true, ℕ, ◌&&◌, ◌++◌, ◌==◌, ◌||◌, ◌∷◌, ◌≡◌,
}
use veyra_demo.Prelude.Distinct.{Distinct, Distinct-add, Distinct-keep, map-same}
use veyra_demo.Python.Result.{Result, err, ok}
use veyra_demo.Python.Text.{char_count, is_empty, strip}

pub record IsKeyed (db : AccountsDb) : Type 0 where
  pub emails : Distinct (map (λ (u : User). u.email) db.users)
  pub user_ids : Distinct (map (λ (u : User). u.id) db.users)
  pub tokens : Distinct (map (λ (s : Session). s.token_hash) db.sessions)
  pub links : Distinct (map (λ (s : Share). s.token_hash) db.shares)
  pub link_ids : Distinct (map (λ (s : Share). s.id) db.shares)

-- One call, also one that raises.
pub data AccountsStep (c : Crypto) (db db' : AccountsDb) : Type 0 where
  by_workspace : (name : String) → db' ≡ (add_workspace c name db).1 → AccountsStep c db db'
  by_user :
      (now : ℕ) (drawn salt user_id workspace_id address name given : String)
      → db' ≡ (add_user c now drawn salt user_id workspace_id address name given db).1
      → AccountsStep c db db'
  by_login :
      (now : ℕ) (token email password : String)
      → db' ≡ (login c now token email password db).1
      → AccountsStep c db db'
  by_logout : (token : String) → db' ≡ logout c token db → AccountsStep c db db'
  by_password :
      (salt drawn email given : String)
      → db' ≡ (set_password c salt drawn email given db).1
      → AccountsStep c db db'
  by_disabling :
      (email : String) (disabled : Bool)
      → db' ≡ (set_disabled c email disabled db).1
      → AccountsStep c db db'
  by_share :
      (now : ℕ) (token share_id workspace_id case_id created_by : String) (days : ℕ)
      → db' ≡ (create_share c now token share_id workspace_id case_id created_by days db).1
      → AccountsStep c db db'
  by_revoking :
      (now : ℕ) (workspace_id share_id : String)
      → db' ≡ (revoke_share now workspace_id share_id db).1
      → AccountsStep c db db'

pub data AccountsReach (c : Crypto) (db : AccountsDb) : AccountsDb → Type 0 where
  opened : AccountsReach c db db
  called : {u v : AccountsDb} → AccountsReach c db u → AccountsStep c u v → AccountsReach c db v

same_keys :
    (db db' : AccountsDb)
    → db'.users ≡ db.users
    → db'.sessions ≡ db.sessions
    → db'.shares ≡ db.shares
    → IsKeyed db
    → IsKeyed db'
same_keys db db' u s l k = record {
  emails = subst (λ t. Distinct (map (λ (v : User). v.email) t)) (sym u) k.emails;
  user_ids = subst (λ t. Distinct (map (λ (v : User). v.id) t)) (sym u) k.user_ids;
  tokens = subst (λ t. Distinct (map (λ (v : Session). v.token_hash) t)) (sym s) k.tokens;
  links = subst (λ t. Distinct (map (λ (v : Share). v.token_hash) t)) (sym l) k.links;
  link_ids = subst (λ t. Distinct (map (λ (v : Share). v.id) t)) (sym l) k.link_ids;
}

IsKeyed-with_users :
    (db : AccountsDb) (us : List User)
    → Distinct (map (λ (v : User). v.email) us)
    → Distinct (map (λ (v : User). v.id) us)
    → IsKeyed db
    → IsKeyed (record db { users = us })
IsKeyed-with_users db us e i k = record {
  emails = e;
  user_ids = i;
  tokens = k.tokens;
  links = k.links;
  link_ids = k.link_ids;
}

IsKeyed-with_sessions :
    (db : AccountsDb) (ss : List Session)
    → Distinct (map (λ (v : Session). v.token_hash) ss)
    → IsKeyed db
    → IsKeyed (record db { sessions = ss })
IsKeyed-with_sessions db ss t k = record {
  emails = k.emails;
  user_ids = k.user_ids;
  tokens = t;
  links = k.links;
  link_ids = k.link_ids;
}

IsKeyed-with_shares :
    (db : AccountsDb) (ss : List Share)
    → Distinct (map (λ (v : Share). v.token_hash) ss)
    → Distinct (map (λ (v : Share). v.id) ss)
    → IsKeyed db
    → IsKeyed (record db { shares = ss })
IsKeyed-with_shares db ss t i k = record {
  emails = k.emails;
  user_ids = k.user_ids;
  tokens = k.tokens;
  links = t;
  link_ids = i;
}

insert_workspace-IsKeyed :
    (name : String) (r : Result String) (db : AccountsDb)
    → IsKeyed db
    → IsKeyed (insert_workspace name r db).1
unfolding insert_workspace
insert_workspace-IsKeyed name (err e) db k = k
insert_workspace-IsKeyed name (ok w) db k = elim (Bool-cases (has_workspace w db)) [
  | inl there ↦ rw there k
  | inr free ↦ rw free (elim (Bool-cases (is_workspace_id w)) [
    | inl right ↦ rw right (same_keys db _ refl refl refl k)
    | inr wrong ↦ rw wrong (same_keys db _ refl refl refl k)
  ])
]

add_workspace-IsKeyed :
    (c : Crypto) (name : String) (db : AccountsDb)
    → IsKeyed db
    → IsKeyed (add_workspace c name db).1
unfolding add_workspace
add_workspace-IsKeyed c name = insert_workspace-IsKeyed name (slug c name)

-- what `add_user` inserts, past its guards
IsKeyed-with_user :
    (u : User) (db : AccountsDb)
    → (elem u.email (map (λ (v : User). v.email) db.users)
        || elem u.id (map (λ (v : User). v.id) db.users))
      ≡ false
    → IsKeyed db
    → IsKeyed (record db { users = db.users ++ u ∷ [] })
IsKeyed-with_user u db free k =
    let (email_free, id_free) = neither _ _ free in
    IsKeyed-with_users db _ (Distinct-add (λ (v : User). v.email) db.users u k.emails email_free)
      (Distinct-add (λ (v : User). v.id) db.users u k.user_ids id_free) k

add_user-IsKeyed :
    (c : Crypto) (now : ℕ) (drawn salt user_id workspace_id address name given : String)
    (db : AccountsDb)
    → IsKeyed db
    → IsKeyed (add_user c now drawn salt user_id workspace_id address name given db).1
unfolding add_user
add_user-IsKeyed c now drawn salt user_id workspace_id address name given db k =
    elim (Bool-cases (not (is_email_from false (clean_email c address)))) [
      | inl bad ↦ rw bad k
      | inr good ↦ rw good (elim (Bool-cases (not (has_workspace workspace_id db))) [
        | inl bad ↦ rw bad k
        | inr known ↦ rw known (elim (Bool-cases (is_empty (strip name))) [
          | inl bad ↦ rw bad k
          | inr named ↦
              rw named
                (elim (Bool-cases (ltb (char_count (if is_empty given then drawn else given)) 10)) [
                  | inl bad ↦ rw bad k
                  | inr long ↦
                      rw long
                        (elim (Bool-cases (
                          elem (clean_email c address) (map (λ (v : User). v.email) db.users)
                          || elem user_id (map (λ (v : User). v.id) db.users))) [
                            | inl taken ↦ rw taken k
                            | inr free ↦ rw free (IsKeyed-with_user _ db free k)
                          ])
                ])
        ])
      ])
    ]

open_session-IsKeyed :
    (c : Crypto) (now : ℕ) (token : String) (u : User) (db : AccountsDb)
    → IsKeyed db
    → IsKeyed (open_session c now token u db).1
unfolding open_session
open_session-IsKeyed c now token u db k =
    elim (Bool-cases
      (elem (c.hash_token token) (map (λ (s : Session). s.token_hash) db.sessions))) [
        | inl taken ↦ rw taken k
        | inr free ↦ rw free (
            IsKeyed-with_sessions db _
              (Distinct-add (λ (v : Session). v.token_hash) db.sessions _ k.tokens free) k)
      ]

sign_in-IsKeyed :
    (c : Crypto) (now : ℕ) (token email password : String) (o : Option User) (db : AccountsDb)
    → IsKeyed db
    → IsKeyed (sign_in c now token email password o db).1
unfolding sign_in
sign_in-IsKeyed c now token email password none db k = same_keys db _ refl refl refl k
sign_in-IsKeyed c now token email password (some u) db k =
    elim (Bool-cases (may_sign_in c password (some u))) [
      | inl right ↦ rw right (
          open_session-IsKeyed c now token u (forget_failures email db)
            (same_keys db _ refl refl refl k))
      | inr failed ↦ rw failed (same_keys db _ refl refl refl k)
    ]

login-IsKeyed :
    (c : Crypto) (now : ℕ) (token email password : String) (db : AccountsDb)
    → IsKeyed db
    → IsKeyed (login c now token email password db).1
unfolding login
login-IsKeyed c now token email password db k =
    let kept : IsKeyed (purge now db) = same_keys db (purge now db) refl refl refl k in
    elim (Bool-cases (leb lockout_failures (failures_of (clean_email c email) (purge now db)))) [
      | inl locked ↦ rw locked kept
      | inr allowed ↦ rw allowed (
          sign_in-IsKeyed c now token (clean_email c email) password
            (user_with (λ (u : User). u.email == clean_email c email) db.users) (purge now db) kept)
    ]

logout-IsKeyed :
    (c : Crypto) (token : String) (db : AccountsDb) → IsKeyed db → IsKeyed (logout c token db)
unfolding logout
logout-IsKeyed c token db k = elim (Bool-cases (is_empty token)) [
  | inl blank ↦ rw blank k
  | inr given ↦ rw given (
      IsKeyed-with_sessions db _
        (Distinct-keep (λ (v : Session). v.token_hash) _ db.sessions k.tokens) k)
]

end_sessions-IsKeyed :
    (email : String) (db : AccountsDb) → IsKeyed db → IsKeyed (end_sessions email db)
end_sessions-IsKeyed email db k =
    IsKeyed-with_sessions db _
      (Distinct-keep (λ (v : Session). v.token_hash) _ db.sessions k.tokens) k

update_users-IsKeyed :
    (email : String) (change : User → User) (db : AccountsDb)
    → ((u : User) → ((change u).email ≡ u.email) × ((change u).id ≡ u.id))
    → IsKeyed db
    → IsKeyed (update_users email change db)
update_users-IsKeyed email change db same k =
    IsKeyed-with_users db _
      (subst Distinct (sym (map-same (λ (v : User). v.email) changed (λ u. (one u).0) db.users))
        k.emails)
      (subst Distinct (sym (map-same (λ (v : User). v.id) changed (λ u. (one u).1) db.users))
        k.user_ids)
      k
  where
    changed : User → User
    changed u = if u.email == email then change u else u

    one : (u : User) → ((changed u).email ≡ u.email) × ((changed u).id ≡ u.id)
    one u = elim (Bool-cases (u.email == email)) [
      | inl at ↦ rw at (same u)
      | inr off ↦ rw off (refl, refl)
    ]

set_password-IsKeyed :
    (c : Crypto) (salt drawn email given : String) (db : AccountsDb)
    → IsKeyed db
    → IsKeyed (set_password c salt drawn email given db).1
unfolding set_password
set_password-IsKeyed c salt drawn email given db k =
    elim (Bool-cases (ltb (char_count (if is_empty given then drawn else given)) 10)) [
      | inl bad ↦ rw bad k
      | inr long ↦ rw long (elim (Bool-cases (has_user (clean_email c email) db)) [
        | inl there ↦ rw there (
            end_sessions-IsKeyed (clean_email c email) _ (
              update_users-IsKeyed (clean_email c email)
                (λ u. record u {
                  password_hash = hash_password c (if is_empty given then drawn else given) salt;
                })
                db (λ u. (refl, refl)) k))
        | inr unknown ↦ rw unknown k
      ])
    ]

set_disabled-IsKeyed :
    (c : Crypto) (email : String) (disabled : Bool) (db : AccountsDb)
    → IsKeyed db
    → IsKeyed (set_disabled c email disabled db).1
unfolding set_disabled
set_disabled-IsKeyed c email disabled db k = elim (Bool-cases (has_user (clean_email c email) db)) [
  | inl there ↦ rw there (
      ended disabled (
        update_users-IsKeyed (clean_email c email) (λ u. record u { disabled = disabled }) db
          (λ u. (refl, refl)) k))
  | inr unknown ↦ rw unknown k
]
  where
    ended :
        (b : Bool) {d : AccountsDb}
        → IsKeyed d
        → IsKeyed (if b then end_sessions (clean_email c email) d else d)
    ended true h = end_sessions-IsKeyed (clean_email c email) _ h
    ended false h = h

create_share-IsKeyed :
    (c : Crypto) (now : ℕ) (token share_id workspace_id case_id created_by : String) (days : ℕ)
    (db : AccountsDb)
    → IsKeyed db
    → IsKeyed (create_share c now token share_id workspace_id case_id created_by days db).1
unfolding create_share
create_share-IsKeyed c now token share_id workspace_id case_id created_by days db k =
    elim (Bool-cases (not (leb 1 days && leb days 90))) [
      | inl bad ↦ rw bad k
      | inr good ↦
          rw good
            (elim (Bool-cases (
              elem (c.hash_token token) (map (λ (s : Share). s.token_hash) db.shares)
              || elem share_id (map (λ (s : Share). s.id) db.shares))) [
                | inl taken ↦ rw taken k
                | inr free ↦ rw free (
                    let (hash_free, id_free) = neither _ _ free in
                    IsKeyed-with_shares db _
                      (Distinct-add (λ (v : Share). v.token_hash) db.shares _ k.links hash_free)
                      (Distinct-add (λ (v : Share). v.id) db.shares _ k.link_ids id_free) k)
              ])
    ]

revoke_share-IsKeyed :
    (now : ℕ) (workspace_id share_id : String) (db : AccountsDb)
    → IsKeyed db
    → IsKeyed (revoke_share now workspace_id share_id db).1
unfolding revoke_share
revoke_share-IsKeyed now workspace_id share_id db k =
    elim (Bool-cases (any (is_revocable workspace_id share_id) db.shares)) [
      | inr none_left ↦ rw none_left k
      | inl some_left ↦ rw some_left (
          IsKeyed-with_shares db _
            (subst Distinct
              (sym (map-same (λ (v : Share). v.token_hash) revoked (λ s. (one s).0) db.shares))
              k.links)
            (subst Distinct
              (sym (map-same (λ (v : Share). v.id) revoked (λ s. (one s).1) db.shares)) k.link_ids)
            k)
    ]
  where
    revoked : Share → Share
    revoked s =
        if is_revocable workspace_id share_id s then record s { revoked_at = some now } else s

    one : (s : Share) → ((revoked s).token_hash ≡ s.token_hash) × ((revoked s).id ≡ s.id)
    one s = elim (Bool-cases (is_revocable workspace_id share_id s)) [
      | inl at ↦ rw at (refl, refl)
      | inr off ↦ rw off (refl, refl)
    ]

AccountsStep-IsKeyed : {c : Crypto} {u v : AccountsDb} → IsKeyed u → AccountsStep c u v → IsKeyed v
AccountsStep-IsKeyed {c} {u} k (by_workspace name e) =
    subst IsKeyed (sym e) (add_workspace-IsKeyed c name u k)
AccountsStep-IsKeyed {c} {u} k (by_user n d s i w a m g e) =
    subst IsKeyed (sym e) (add_user-IsKeyed c n d s i w a m g u k)
AccountsStep-IsKeyed {c} {u} k (by_login n t m p e) =
    subst IsKeyed (sym e) (login-IsKeyed c n t m p u k)
AccountsStep-IsKeyed {c} {u} k (by_logout t e) = subst IsKeyed (sym e) (logout-IsKeyed c t u k)
AccountsStep-IsKeyed {c} {u} k (by_password s d m g e) =
    subst IsKeyed (sym e) (set_password-IsKeyed c s d m g u k)
AccountsStep-IsKeyed {c} {u} k (by_disabling m b e) =
    subst IsKeyed (sym e) (set_disabled-IsKeyed c m b u k)
AccountsStep-IsKeyed {c} {u} k (by_share n t s w i b d e) =
    subst IsKeyed (sym e) (create_share-IsKeyed c n t s w i b d u k)
AccountsStep-IsKeyed {c} {u} k (by_revoking n w s e) =
    subst IsKeyed (sym e) (revoke_share-IsKeyed n w s u k)

-- Whatever sequence of calls the accounts see, from tables with unique keys: no two accounts share an email or an id,
-- no two sessions the hash of a token, and no two share links the hash of a token or an id.
pub AccountsReach-IsKeyed :
    {c : Crypto} {db db' : AccountsDb} → IsKeyed db → AccountsReach c db db' → IsKeyed db'
AccountsReach-IsKeyed k opened = k
AccountsReach-IsKeyed k (called reach step) =
    AccountsStep-IsKeyed (AccountsReach-IsKeyed k reach) step
