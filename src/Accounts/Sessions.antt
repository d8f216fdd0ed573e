-- ===== src/Accounts/Sessions.antt =====
-- Signing in and out: `login`, `session`, `user_by_email`, `logout`, `set_password` and `set_disabled`.
use veyra_demo.Accounts.{
  AccountsAction, AccountsDb, Crypto, Public, Session, User, check_password, clean_email,
  hash_password, lockout_failures, lockout_window, public, session_days, user_with,
}
use veyra_demo.Prelude.{
  Bool, List, Option, String, [], any, elem, false, if◌then◌else◌, keep, leb, length, ltb, map,
  none, not, some, ℕ, ◌&&◌, ◌*◌, ◌++◌, ◌+◌, ◌==◌, ◌||◌, ◌∷◌,
}
use veyra_demo.Python.Result.{Error, account_error, err, integrity_error, ok}
use veyra_demo.Python.Text.{char_count, is_empty, ◌&◌}

-- `DELETE FROM login_failures WHERE at < now - LOCKOUT_WINDOW_S`
abbrev pub purge : ℕ → AccountsDb → AccountsDb
purge now db = record db {
  failures = keep (λ f. not (ltb (f.failed_at + lockout_window) now)) db.failures;
}

-- `SELECT COUNT(*) FROM login_failures WHERE email = ?`
abbrev pub failures_of : String → AccountsDb → ℕ
failures_of email db = length (keep (λ f. f.email == email) db.failures)

-- `bool(user) and not user["disabled"] and check_password(…)`
unfoldable pub may_sign_in : Crypto → String → Option User → Bool
may_sign_in c password none = false
may_sign_in c password (some u) = not u.disabled && check_password c password u.password_hash

abbrev pub too_many : Error
too_many = account_error "Too many failed sign-ins. Try again in 15 minutes."

abbrev pub wrong : Error
wrong = account_error "Email or password is not right"

-- the failure that is noted
abbrev pub note_failure : String → ℕ → AccountsDb → AccountsDb
note_failure email now db = record db {
  failures = db.failures ++ record { email = email; failed_at = now } ∷ [];
}

abbrev pub forget_failures : String → AccountsDb → AccountsDb
forget_failures email db = record db { failures = keep (λ f. not (f.email == email)) db.failures }

-- the row that a sign-in stores
abbrev pub new_session : Crypto → ℕ → String → User → Session
new_session c now token u = record {
  token_hash = c.hash_token token;
  user_id = u.id;
  created_at = now;
  expires_at = now + session_days * 86400;
}

-- `INSERT INTO sessions`, whose key is the hash of the token
unfoldable pub open_session : Crypto → ℕ → String → User → AccountsAction (String × Public)
unfolding public
open_session c now token u db =
    if elem (c.hash_token token) (map (λ s. s.token_hash) db.sessions)
    then (err (integrity_error "UNIQUE constraint failed: sessions.token_hash"), db)
    else (
      ok (token, public db u),
      record db { sessions = db.sessions ++ new_session c now token u ∷ [] },
    )

-- the rest of `login`, once the user is looked up
unfoldable pub sign_in :
    Crypto → ℕ → String → String → String → Option User → AccountsAction (String × Public)
unfolding may_sign_in open_session
sign_in c now token email password none db = (err wrong, note_failure email now db)
sign_in c now token email password (some u) db =
    if may_sign_in c password (some u)
    then open_session c now token u (forget_failures email db)
    else (err wrong, note_failure email now db)

-- `login(email, password)`, at a time and with the token that it draws
unfoldable pub login : Crypto → ℕ → String → String → String → AccountsAction (String × Public)
unfolding sign_in
login c now token email password db =
    let e = clean_email c email in
    let recent = purge now db in
    if leb lockout_failures (failures_of e recent)
    then (err too_many, recent)
    else sign_in c now token e password (user_with (λ u. u.email == e) recent.users) recent

-- the join of sessions and users, for one token
unfoldable pub session_row : String → List Session → List User → Option (User × Session)
session_row h [] us = none
session_row h (s ∷ ss) us =
    let rest = session_row h ss us in
    if s.token_hash == h
    then elim (user_with (λ u. u.id == s.user_id) us) [ none ↦ rest | some u ↦ some (u, s) ]
    else rest

-- `session(token)` of a token that is there
unfoldable pub session : Crypto → ℕ → String → AccountsDb → Option Public
unfolding session_row public
session c now token db =
    if is_empty token then none else elim (session_row (c.hash_token token) db.sessions db.users) [
      | none ↦ none
      | some (u, s) ↦ if u.disabled || ltb s.expires_at now then none else some (public db u)
    ]

-- `user_by_email(email)`
unfoldable pub user_by_email : Crypto → String → AccountsDb → Option Public
unfolding public
user_by_email c email db = elim (user_with (λ u. u.email == clean_email c email) db.users) [
  | none ↦ none
  | some u ↦ if u.disabled then none else some (public db u)
]

-- `logout(token)`
unfoldable pub logout : Crypto → String → AccountsDb → AccountsDb
logout c token db =
    if is_empty token
    then db
    else record db { sessions = keep (λ s. not (s.token_hash == c.hash_token token)) db.sessions }

-- `DELETE FROM sessions WHERE user_id IN (SELECT id FROM users WHERE email = ?)`
abbrev pub end_sessions : String → AccountsDb → AccountsDb
end_sessions email db =
    let gone = map (λ (u : User). u.id) (keep (λ u. u.email == email) db.users) in
    record db { sessions = keep (λ s. not (elem s.user_id gone)) db.sessions }

-- `UPDATE users SET … WHERE email = ?`
abbrev pub update_users : String → (User → User) → AccountsDb → AccountsDb
update_users email change db = record db {
  users = map (λ (u : User). if u.email == email then change u else u) db.users;
}

abbrev pub has_user : String → AccountsDb → Bool
has_user email db = any (λ (u : User). u.email == email) db.users

-- `set_password(email, password)`, with the password that it draws when none is given, and the salt
unfoldable pub set_password : Crypto → String → String → String → String → AccountsAction String
set_password c salt drawn email given db =
    let password = if is_empty given then drawn else given in
    let e = clean_email c email in
    if ltb (char_count password) 10
    then (err (account_error "Passwords need at least 10 characters"), db)
    else if has_user e db
    then (
      ok password,
      end_sessions e
          (update_users e (λ u. record u { password_hash = hash_password c password salt }) db),
    )
    else (err (account_error ("No account for " & email)), db)

-- `set_disabled(email, disabled)`
unfoldable pub set_disabled : Crypto → String → Bool → AccountsAction (Unit {0})
set_disabled c email disabled db =
    let e = clean_email c email in
    let changed = update_users e (λ u. record u { disabled = disabled }) db in
    if has_user e db
    then (ok tt, if disabled then end_sessions e changed else changed)
    else (err (account_error ("No account for " & email)), db)
