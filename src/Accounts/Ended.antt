-- ===== src/Accounts/Ended.antt =====
-- Who is signed in, and what ends a session.
use veyra_demo.Accounts.{AccountsDb, Crypto, Public, Session, User, clean_email, public, user_with}
use veyra_demo.Accounts.Sessions.{
  end_sessions, has_user, session, session_row, set_disabled, set_password,
}
use veyra_demo.Prelude.{
  Bool, Bool-cases, In, In-elem, In-keep, In-map, List, Option, String, [], ap, elem, eq_iff, false,
  first, if◌then◌else◌, inl, inr, keep, keep-holds, later, ltb, ltb-ge, map, neither, none, not,
  refl, some, some_injective, subst, subst₂, sym, true, ℕ, ◌==◌, ◌||◌, ◌∙◌, ◌∷◌, ◌≡◌, ◌≢◌, ◌≤◌,
}
use veyra_demo.Python.Result.{ok}
use veyra_demo.Python.Text.{char_count, is_empty}

user_with-found :
    (test : User → Bool) (us : List User) (u : User)
    → user_with test us ≡ some u
    → In u us × (test u ≡ true)
user_with-found test [] u h = cc
user_with-found test (v ∷ us) u h = elim (Bool-cases (test v)) [
  | inl here ↦
      let same : v ≡ u = cc (rw here at h) in
      (first (sym same), subst (λ x. test x ≡ true) same here)
  | inr other ↦ let (m, holds) = user_with-found test us u (rw other at h) in (later m, holds)
]

session_row-found :
    (h : String) (ss : List Session) (us : List User) (u : User) (s : Session)
    → session_row h ss us ≡ some (u, s)
    → In s ss × (s.token_hash ≡ h) × In u us × (u.id ≡ s.user_id)
unfolding session_row
session_row-found h [] us u s g = cc
session_row-found h (r ∷ ss) us u s g = elim (Bool-cases (r.token_hash == h)) [
  | inr other ↦
      let (m, t, n, o) = session_row-found h ss us u s (rw other at g) in (later m, t, n, o)
  | inl here ↦
      owned (user_with (λ v. v.id == r.user_id) us) refl (rw here at g) here
        (session_row-found h ss us u s)
]
  where
    owned :
        (o : Option User)
        → user_with (λ v. v.id == r.user_id) us ≡ o
        → elim o [ none ↦ session_row h ss us | some v ↦ some (v, r) ] ≡ some (u, s)
        → (r.token_hash == h) ≡ true
        → (session_row h ss us ≡ some (u, s)
            → In s ss × (s.token_hash ≡ h) × In u us × (u.id ≡ s.user_id))
        → In s (r ∷ ss) × (s.token_hash ≡ h) × In u us × (u.id ≡ s.user_id)
    owned none none_owns k here rest = let (m, t, n, o) = rest k in (later m, t, n, o)
    owned (some v) owns k here rest =
        let same_row : r ≡ s = cc k in
        let same_user : v ≡ u = cc k in
        let (m, holds) = user_with-found (λ x. x.id == r.user_id) us v owns in
        (
          first (sym same_row),
          subst (λ (x : Session). x.token_hash ≡ h) same_row ((eq_iff _ _).0 here),
          subst (λ x. In x us) same_user m,
          subst₂ (λ (x : User) (y : Session). x.id ≡ y.user_id) same_user same_row
              ((eq_iff _ _).0 holds),
        )

-- What stands behind a token that signs somebody in.
pub record IsSignedIn (c : Crypto) (now : ℕ) (token : String) (db : AccountsDb) (p : Public)
    : Type 0 where
  pub user : User
  pub row : Session
  pub known : In user db.users
  pub opened : In row db.sessions
  pub of_token : row.token_hash ≡ c.hash_token token
  pub owner : user.id ≡ row.user_id
  pub enabled : user.disabled ≡ false
  pub unexpired : now ≤ row.expires_at
  pub shown : p ≡ public db user

-- A token signs somebody in only through a stored session of its hash that has not expired, and as
-- the owner of that session, whose account is not disabled.
pub session-IsSignedIn :
    (c : Crypto) (now : ℕ) (token : String) (db : AccountsDb) (p : Public)
    → session c now token db ≡ some p
    → IsSignedIn c now token db p
unfolding session
session-IsSignedIn c now token db p h = elim (Bool-cases (is_empty token)) [
  | inl blank ↦ cc (rw blank at h)
  | inr given ↦ go (session_row (c.hash_token token) db.sessions db.users) refl (rw given at h)
]
  where
    go :
        (o : Option (User × Session))
        → session_row (c.hash_token token) db.sessions db.users ≡ o
        → elim o [
          | none ↦ none
          | some (u, s) ↦ if u.disabled || ltb s.expires_at now then none else some (public db u)
        ]
          ≡ some p
        → IsSignedIn c now token db p
    go none found k = cc k
    go (some (u, s)) found k = elim (Bool-cases (u.disabled || ltb s.expires_at now)) [
      | inl out ↦ cc (rw out at k)
      | inr fine ↦
          let (m, t, n, o) =
            session_row-found (c.hash_token token) db.sessions db.users u s found in
          let (enabled, fresh) = neither _ _ fine in
          record {
            user = u;
            row = s;
            known = n;
            opened = m;
            of_token = t;
            owner = o;
            enabled = enabled;
            unexpired = ltb-ge s.expires_at now fresh;
            shown = sym (some_injective (rw fine at k));
          }
    ]

end_sessions-ended :
    (c : Crypto) (now : ℕ) (token email : String) (db : AccountsDb) (p : Public)
    → session c now token (end_sessions email db) ≡ some p
    → p.email ≢ email
unfolding public
end_sessions-ended c now token email db p h same =
    let live = session-IsSignedIn c now token (end_sessions email db) p h in
    let theirs : live.user.email ≡ email = sym (ap (λ (x : Public). x.email) live.shown) ∙ same in
    let gone = map (λ (u : User). u.id) (keep (λ u. u.email == email) db.users) in
    let kept =
      keep-holds (λ (s : Session). not (elem s.user_id gone)) db.sessions live.row live.opened in
    let listed =
      In-map (λ (u : User). u.id) _
        (In-keep (λ u. u.email == email) db.users live.user live.known ((eq_iff _ _).1 theirs)) in
    let taken : elem live.row.user_id gone ≡ true =
      In-elem live.row.user_id gone (subst (λ i. In i gone) live.owner listed) in
    cc (rw taken at kept)

-- A new password ends every session of the account: no token that was given out before, nor any
-- other, signs in as its owner afterwards, until the next sign-in.
pub set_password-ended :
    (c : Crypto) (salt drawn email given : String) (db : AccountsDb) (password : String) (now : ℕ)
    (token : String) (p : Public)
    → (set_password c salt drawn email given db).0 ≡ ok password
    → session c now token (set_password c salt drawn email given db).1 ≡ some p
    → p.email ≢ clean_email c email
unfolding set_password
set_password-ended c salt drawn email given db password now token p h g =
    let chosen = if is_empty given then drawn else given in
    elim (Bool-cases (ltb (char_count chosen) 10)) [
      | inl short ↦ cc (rw short at h)
      | inr long ↦ elim (Bool-cases (has_user (clean_email c email) db)) [
        | inl known ↦
            end_sessions-ended c now token (clean_email c email) _ p (rw (long, known) at g)
        | inr unknown_one ↦ cc (rw (long, unknown_one) at h)
      ]
    ]

-- Disabling an account ends every session of it.
pub set_disabled-ended :
    (c : Crypto) (email : String) (db : AccountsDb) (now : ℕ) (token : String) (p : Public)
    → (set_disabled c email true db).0 ≡ ok tt
    → session c now token (set_disabled c email true db).1 ≡ some p
    → p.email ≢ clean_email c email
unfolding set_disabled
set_disabled-ended c email db now token p h g =
    elim (Bool-cases (has_user (clean_email c email) db)) [
      | inl known ↦ end_sessions-ended c now token (clean_email c email) _ p (rw known at g)
      | inr unknown_one ↦ cc (rw unknown_one at h)
    ]
