-- ===== src/Accounts/SignIn.antt =====
-- Signing in with the right password, and the session that it opens.
use veyra_demo.Accounts.{
  AccountsDb, Crypto, Session, User, check_password, clean_email, lockout_failures, public,
  session_days, user_with,
}
use veyra_demo.Accounts.Keys.{IsKeyed}
use veyra_demo.Accounts.Sessions.{
  failures_of, forget_failures, login, may_sign_in, new_session, open_session, purge, session,
  session_row, sign_in,
}
use veyra_demo.Ledger.Entry.{ids}
use veyra_demo.Prelude.{
  Bool-cases, In, In-cons, In-elem, In-map, List, String, [], elem, eq_iff, false, inl, inr, le-ltb,
  lt-leb, map, neither, refl, some, sym, true, ℕ, ◌*◌, ◌++◌, ◌+◌, ◌<◌, ◌==◌, ◌∷◌, ◌≡◌, ◌≤◌,
}
use veyra_demo.Prelude.Distinct.{Distinct}
use veyra_demo.Python.Result.{ok}
use veyra_demo.Python.Text.{is_empty}

user_with-key :
    (key : User → String) (us : List User) (u : User)
    → Distinct (map key us)
    → In u us
    → user_with (λ v. key v == key u) us ≡ some u
user_with-key key [] u d m = elim m [ ]
user_with-key key (v ∷ us) u (fresh, d) m = elim (In-cons us m) [
  | inl here ↦ rw (here, (eq_iff (key v) (key v)).1 refl) refl
  | inr there ↦ elim (Bool-cases (key v == key u)) [
    | inl same ↦
        cc (rw ((eq_iff _ _).0 same, In-elem (key u) (map key us) (In-map key us there)) at fresh)
    | inr other ↦ rw other (user_with-key key us u d there)
  ]
]

session_row-last :
    (h : String) (ss : List Session) (us : List User) (s : Session) (u : User)
    → elem h (map (λ (r : Session). r.token_hash) ss) ≡ false
    → s.token_hash ≡ h
    → user_with (λ v. v.id == s.user_id) us ≡ some u
    → session_row h (ss ++ s ∷ []) us ≡ some (u, s)
unfolding session_row
session_row-last h [] us s u fresh e found = rw ((eq_iff _ _).1 e, found) refl
session_row-last h (r ∷ ss) us s u fresh e found =
    let (apart, absent) = neither (r.token_hash == h) _ fresh in
    rw (apart, session_row-last h ss us s u absent e found) refl

-- the session that `open_session` adds
opens :
    (c : Crypto) (now : ℕ) (token : String) (u : User) (db : AccountsDb)
    → elem (c.hash_token token) (map (λ (r : Session). r.token_hash) db.sessions) ≡ false
    → ((open_session c now token u db).0 ≡ ok (token, public db u))
      × ((open_session c now token u db).1
          ≡ record db { sessions = db.sessions ++ new_session c now token u ∷ [] })
unfolding open_session
opens c now token u db fresh = rw fresh (refl, refl)

-- what the new session shows, until it expires
session-opened :
    (c : Crypto) (now used_at : ℕ) (token : String) (u : User) (db : AccountsDb)
    → Distinct (map (λ (v : User). v.id) db.users)
    → In u db.users
    → u.disabled ≡ false
    → elem (c.hash_token token) (map (λ (r : Session). r.token_hash) db.sessions) ≡ false
    → is_empty token ≡ false
    → used_at ≤ now + session_days * 86400
    → session c used_at token
        (record db { sessions = db.sessions ++ new_session c now token u ∷ [] })
      ≡ some (public db u)
unfolding session public
session-opened c now used_at token u db ids known enabled fresh drawn soon =
    rw
      (
        drawn,
        session_row-last (c.hash_token token) db.sessions db.users (new_session c now token u) u
            fresh refl (user_with-key (λ (v : User). v.id) db.users u ids known),
        enabled,
        le-ltb used_at (now + session_days * 86400) soon,
      )
      refl

sign_in-opens :
    (c : Crypto) (now : ℕ) (token email password : String) (u : User) (db : AccountsDb)
    → u.disabled ≡ false
    → check_password c password u.password_hash ≡ true
    → sign_in c now token email password (some u) db
      ≡ open_session c now token u (forget_failures email db)
unfolding sign_in may_sign_in
sign_in-opens c now token email password u db enabled right = rw (enabled, right) refl

module _ (c : Crypto) (now : ℕ) (token email password : String) (db : AccountsDb) (u : User)
    (keyed : IsKeyed db) (known : In u db.users) (address : u.email ≡ clean_email c email)
    (enabled : u.disabled ≡ false) (right : check_password c password u.password_hash ≡ true)
    (few : failures_of (clean_email c email) (purge now db) < lockout_failures) where
  login-opens :
      login c now token email password db
      ≡ open_session c now token u (forget_failures (clean_email c email) (purge now db))
  unfolding login
  login-opens =
      rw
        (
          lt-leb lockout_failures (failures_of (clean_email c email) (purge now db)) few,
          sym address,
          user_with-key (λ (v : User). v.email) db.users u keyed.emails known,
        )
        (sign_in-opens c now token u.email password u (purge now db) enabled right)

  -- An enabled account with the right password and fewer than five recent failures signs in, from tables with unique keys
  -- and with a new token, and until the session expires fourteen days later its token shows that account.
  pub login-session :
      (used_at : ℕ)
      → elem (c.hash_token token) (map (λ (r : Session). r.token_hash) db.sessions) ≡ false
      → is_empty token ≡ false
      → used_at ≤ now + session_days * 86400
      → ((login c now token email password db).0 ≡ ok (token, public db u))
        × (session c used_at token (login c now token email password db).1 ≡ some (public db u))
  unfolding public
  login-session used_at fresh drawn soon =
      let opened_db = forget_failures (clean_email c email) (purge now db) in
      let (result, left) = opens c now token u opened_db fresh in
      rw
        (
          login-opens,
          result,
          left,
          session-opened c now used_at token u opened_db keyed.user_ids known enabled fresh drawn
              soon,
        )
        (refl, refl)
