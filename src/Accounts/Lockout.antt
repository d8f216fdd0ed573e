-- ===== src/Accounts/Lockout.antt =====
-- The lockout after failed sign-ins.
use veyra_demo.Accounts.{
  AccountsDb, Crypto, Failure, User, clean_email, lockout_failures, lockout_window,
}
use veyra_demo.Accounts.Sessions.{
  failures_of, login, may_sign_in, note_failure, open_session, purge, sign_in, too_many, wrong,
}
use veyra_demo.Prelude.{
  &&_split, Bool, Bool-cases, List, Option, String, [], ap, arith, elem, inl, inr, keep,
  keep-snoc_in, le-leb, leb, length, length-append, ltb, map, none, not, refl, same_text, some,
  subst, true, ℕ, ◌&&◌, ◌+◌, ◌==◌, ◌∙◌, ◌∷◌, ◌≡◌, ◌≤◌,
}
use veyra_demo.Python.Result.{err}

pub record Attempt : Type 0 where
  pub at_time : ℕ
  pub token : String
  pub password : String

-- One sign-in after another for one email.
abbrev pub attempts : Crypto → String → List Attempt → AccountsDb → AccountsDb
attempts c email [] db = db
attempts c email (a ∷ more) db =
    attempts c email more (login c a.at_time a.token email a.password db).1

-- Each of them is answered that email or password is not right, in the window from `t`.
abbrev pub AllWrong : Crypto → String → ℕ → List Attempt → AccountsDb → Type 0
AllWrong c email t [] db = Unit
AllWrong c email t (a ∷ more) db =
    (t ≤ a.at_time)
    × (a.at_time ≤ t + lockout_window)
    × ((login c a.at_time a.token email a.password db).0 ≡ err wrong)
    × AllWrong c email t more (login c a.at_time a.token email a.password db).1

-- the failures of an email since `t`
abbrev since : String → ℕ → AccountsDb → ℕ
since email t db = length (keep (λ f. f.email == email && leb t f.failed_at) db.failures)

sign_in-wrong :
    (c : Crypto) (now : ℕ) (token email password : String) (o : Option User) (db : AccountsDb)
    → (sign_in c now token email password o db).0 ≡ err wrong
    → (sign_in c now token email password o db).1 ≡ note_failure email now db
unfolding sign_in open_session
sign_in-wrong c now token email password none db h = refl
sign_in-wrong c now token email password (some u) db h =
    elim (Bool-cases (may_sign_in c password (some u))) [
      | inr refused ↦ rw refused refl
      | inl right ↦
          elim (Bool-cases (elem (c.hash_token token) (map (λ s. s.token_hash) db.sessions))) [
            | inl taken ↦ cc (rw (right, taken) at h)
            | inr fresh ↦ cc (rw (right, fresh) at h)
          ]
    ]

login-wrong :
    (c : Crypto) (now : ℕ) (token email password : String) (db : AccountsDb)
    → (login c now token email password db).0 ≡ err wrong
    → (login c now token email password db).1
      ≡ note_failure (clean_email c email) now (purge now db)
unfolding login
login-wrong c now token email password db h =
    elim (Bool-cases (leb lockout_failures (failures_of (clean_email c email) (purge now db)))) [
      | inl locked ↦ cc (rw locked at h)
      | inr free ↦
          rw free (
            sign_in-wrong c now token (clean_email c email) password _ (purge now db)
              (rw free at h))
    ]

-- since `t`, nothing is purged within the window
since-purge :
    (email : String) (t now : ℕ) (fs : List Failure)
    → now ≤ t + lockout_window
    → keep
        (λ f. f.email == email && leb t f.failed_at)
        (keep (λ f. not (ltb (f.failed_at + lockout_window) now)) fs)
      ≡ keep (λ f. f.email == email && leb t f.failed_at) fs
since-purge email t now [] h = refl
since-purge email t now (f ∷ fs) h = ground (arith, since-purge email t now fs h)

since-note :
    (email : String) (t now : ℕ) (db : AccountsDb)
    → t ≤ now
    → now ≤ t + lockout_window
    → since email t (note_failure email now (purge now db)) ≡ since email t db + 1
since-note email t now db low high =
    let counted : (email == email && leb t now) ≡ true =
      rw (same_text email, le-leb t now low) refl in
    ap length (
      keep-snoc_in (λ (f : Failure). f.email == email && leb t f.failed_at)
        (keep (λ f. not (ltb (f.failed_at + lockout_window) now)) db.failures)
        (record { email = email; failed_at = now }) counted)
    ∙ length-append _ _
    ∙ ap (λ fs. length fs + 1) (since-purge email t now db.failures high)

-- the count after the attempts
attempts-since :
    (c : Crypto) (email : String) (t : ℕ) (more : List Attempt) (db : AccountsDb)
    → AllWrong c email t more db
    → since (clean_email c email) t db + length more
      ≤ since (clean_email c email) t (attempts c email more db)
attempts-since c email t [] db h = omega arith
attempts-since c email t (a ∷ more) db (low, high, said, rest) =
    let next = (login c a.at_time a.token email a.password db).1 in
    let one_more : since (clean_email c email) t next ≡ since (clean_email c email) t db + 1 =
      ap (since (clean_email c email) t) (login-wrong c a.at_time a.token email a.password db said)
      ∙ since-note (clean_email c email) t a.at_time db low high in
    omega (arith, one_more, attempts-since c email t more next rest)

length-keep_le :
    (p q : Failure → Bool) (fs : List Failure)
    → ((f : Failure) → p f ≡ true → q f ≡ true)
    → length (keep p fs) ≤ length (keep q fs)
length-keep_le p q [] h = omega arith
length-keep_le p q (f ∷ fs) h = elim (Bool-cases (p f)) [
  | inl kept ↦ rw (kept, h f kept) (omega (arith, length-keep_le p q fs h))
  | inr out ↦ elim (Bool-cases (q f)) [
    | inl also ↦ rw (out, also) (omega (arith, length-keep_le p q fs h))
    | inr not_also ↦ rw (out, not_also) (length-keep_le p q fs h)
  ]
]

since-failures_of :
    (email : String) (t now : ℕ) (db : AccountsDb)
    → now ≤ t + lockout_window
    → since email t db ≤ failures_of email (purge now db)
since-failures_of email t now db high =
    subst (λ n. n ≤ failures_of email (purge now db))
      (ap length (since-purge email t now db.failures high))
      (length-keep_le (λ f. f.email == email && leb t f.failed_at) (λ f. f.email == email) _
        (λ f h. (&&_split _ _ h).0))

-- After at least five sign-ins for an email in a row, with nothing in between, that were all answered "not right" within
-- fifteen minutes, a further one in these fifteen minutes is refused, whatever its password, and opens no session.
pub login-locked :
    (c : Crypto) (email : String) (t : ℕ) (tries : List Attempt) (db : AccountsDb) (now : ℕ)
    (token password : String)
    → AllWrong c email t tries db
    → lockout_failures ≤ length tries
    → now ≤ t + lockout_window
    → ((login c now token email password (attempts c email tries db)).0 ≡ err too_many)
      × ((login c now token email password (attempts c email tries db)).1.sessions
          ≡ (attempts c email tries db).sessions)
unfolding login
login-locked c email t tries db now token password wrong_all five high =
    let after = attempts c email tries db in
    let counted : lockout_failures ≤ failures_of (clean_email c email) (purge now after) = omega (
      arith,
      attempts-since c email t tries db wrong_all,
      since-failures_of (clean_email c email) t now after high,
    ) in
    let locked =
      le-leb lockout_failures (failures_of (clean_email c email) (purge now after)) counted in
    (rw locked refl, rw locked refl)
