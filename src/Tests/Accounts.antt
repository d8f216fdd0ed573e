-- ===== src/Tests/Accounts.antt =====
-- Accounts: a sign-in, what ends it, the lockout and a share link, with stand-ins for the digests.
use veyra_demo.Accounts.{
  AccountsDb, Crypto, Public, Share, User, check_password, hash_password, public,
}
use veyra_demo.Accounts.Ended.{IsSignedIn, session-IsSignedIn}
use veyra_demo.Accounts.Keys.{AccountsReach-IsKeyed, IsKeyed, by_logout, by_share, called, opened}
use veyra_demo.Accounts.Lockout.{AllWrong, Attempt, attempts, login-locked}
use veyra_demo.Accounts.Passwords.{check_password-hash_password}
use veyra_demo.Accounts.People.{
  add_user, add_workspace, dashed, insert_workspace, is_slug_char, is_workspace_id, lstrip_dash,
  rstrip_dash, slug,
}
use veyra_demo.Accounts.Sessions.{
  login, logout, may_sign_in, open_session, session, session_row, sign_in, too_many, user_by_email,
}
use veyra_demo.Accounts.Shares.{create_share, resolve_share, share_with}
use veyra_demo.Accounts.SignIn.{login-session}
use veyra_demo.Accounts.Slug.{slug-IsId}
use veyra_demo.Prelude.{
  List, [], arith, false, first, none, refl, some, true, ℕ, ◌↔◌, ◌∷◌, ◌≡◌, ◌≤◌,
}
use veyra_demo.Python.Result.{account_error, err, ok}
use veyra_demo.Python.Text.{char_count, lstrip, rstrip, split_on, strip, ◌&◌}

abbrev toy_crypto : Crypto
toy_crypto = record { hash_token = λ t. "#" & t; scrypt = λ p s. s & p; lower = λ t. t }

abbrev ann : User
ann = record {
  id = "u1";
  email = "ann@x.org";
  name = "Ann";
  workspace_id = "w";
  password_hash = "scrypt$s$ssecret-pass";
  disabled = false;
  created_at = 0;
}

abbrev bob : User
bob = record {
  id = "u2";
  email = "bob@x.org";
  name = "Bob";
  workspace_id = "w";
  password_hash = "scrypt$s$sbobs-secret";
  disabled = false;
  created_at = 0;
}

abbrev people : AccountsDb
people = record {
  workspaces = ("w", "Lab") ∷ [];
  users = ann ∷ bob ∷ [];
  sessions = [];
  failures = [];
  shares = [];
}

abbrev signed_in : AccountsDb
signed_in =
    (login toy_crypto 100 "t2" "bob@x.org" "bobs-secret"
      (login toy_crypto 100 "t1" "ann@x.org" "secret-pass" people).1).1

abbrev public_bob : Public
public_bob = record {
  id = "u2";
  email = "bob@x.org";
  name = "Bob";
  workspace_id = "w";
  workspace_name = "Lab";
}

session-IsSignedIn_example : IsSignedIn toy_crypto 200 "t2" signed_in public_bob
unfolding login sign_in may_sign_in check_password split_on open_session public session session_row
    strip
session-IsSignedIn_example = session-IsSignedIn toy_crypto 200 "t2" signed_in public_bob refl

abbrev guess : ℕ → Attempt
guess at = record { at_time = at; token = "t"; password = "guess" }

abbrev guesses : List Attempt
guesses = guess 100 ∷ guess 101 ∷ guess 102 ∷ guess 103 ∷ guess 104 ∷ []

guesses-AllWrong : AllWrong toy_crypto "ann@x.org" 100 guesses people
unfolding login sign_in may_sign_in check_password split_on strip
guesses-AllWrong = (
  omega arith,
  omega arith,
  refl,
  (
    omega arith,
    omega arith,
    refl,
    (
      omega arith,
      omega arith,
      refl,
      (omega arith, omega arith, refl, (omega arith, omega arith, refl, tt)),
    ),
  ),
)

login-locked_example :
    ((login toy_crypto 500 "t" "ann@x.org" "secret-pass"
        (attempts toy_crypto "ann@x.org" guesses people)).0
      ≡ err too_many)
    × ((login toy_crypto 500 "t" "ann@x.org" "secret-pass"
          (attempts toy_crypto "ann@x.org" guesses people)).1.sessions
        ≡ (attempts toy_crypto "ann@x.org" guesses people).sessions)
login-locked_example =
    login-locked toy_crypto "ann@x.org" 100 guesses people 500 "t" "secret-pass" guesses-AllWrong
      (omega arith) (omega arith)

abbrev shared : AccountsDb
shared =
    (create_share toy_crypto 100 "t2" "shr-2" "w" "c2" "Ann" 14
      (create_share toy_crypto 100 "t1" "shr-1" "w" "c1" "Ann" 14 people).1).1

abbrev second_link : Share
second_link = record {
  token_hash = "#t2";
  id = "shr-2";
  workspace_id = "w";
  case_id = "c2";
  created_by = "Ann";
  created_at = 100;
  expires_at = 1209700;
  revoked_at = none;
}

opens_second : resolve_share toy_crypto 200 "t2" shared ≡ some second_link
unfolding create_share resolve_share share_with
opens_second = refl

created_token :
    (create_share toy_crypto 100 "t1" "shr-1" "w" "c1" "Ann" 91 people).0
    ≡ err (account_error "A share link lasts between 1 and 90 days")
unfolding create_share
created_token = refl

logged_out : session toy_crypto 200 "t1" (logout toy_crypto "t1" signed_in) ≡ none
unfolding login sign_in may_sign_in check_password split_on open_session public session session_row
    logout strip
logged_out = refl

found_by_email : user_by_email toy_crypto " bob@x.org " people ≡ some public_bob
unfolding public user_by_email strip lstrip rstrip
found_by_email = refl

new_workspace : (add_workspace toy_crypto "-eth  rsl." people).0 ≡ ok ("eth-rsl", "-eth  rsl.")
unfolding add_workspace insert_workspace slug dashed is_slug_char lstrip_dash rstrip_dash
    is_workspace_id char_count strip lstrip rstrip
new_workspace = refl

known_address :
    (add_user toy_crypto 100 "drawn-password" "salt" "u3" "w" "ann@x.org" "Ann" "" people).0
    ≡ err (account_error "ann@x.org already has an account")
unfolding add_user char_count strip lstrip rstrip
known_address = refl

odd_address :
    (add_user toy_crypto 100 "drawn-password" "salt" "u3" "w" "ann@.org" "Ann" "" people).0
    ≡ err (account_error "Give a valid email address")
unfolding add_user char_count strip lstrip rstrip
odd_address = refl

people-IsKeyed : IsKeyed people
people-IsKeyed = record {
  emails = (refl, (refl, tt));
  user_ids = (refl, (refl, tt));
  tokens = tt;
  links = tt;
  link_ids = tt;
}

AccountsReach-IsKeyed_example : IsKeyed (logout toy_crypto "t1" shared)
AccountsReach-IsKeyed_example = AccountsReach-IsKeyed people-IsKeyed (
    called
      (called (called opened (by_share 100 "t1" "shr-1" "w" "c1" "Ann" 14 refl))
        (by_share 100 "t2" "shr-2" "w" "c2" "Ann" 14 refl))
      (by_logout "t1" refl))

check_password-hash_password_example :
    (check_password toy_crypto "other" (hash_password toy_crypto "secret-pass" "s") ≡ true)
    ↔ (toy_crypto.scrypt "other" "s" ≡ toy_crypto.scrypt "secret-pass" "s")
check_password-hash_password_example =
    check_password-hash_password toy_crypto "other" "secret-pass" "s" refl refl

login-session_example :
    ((login toy_crypto 100 "t1" "ann@x.org " "secret-pass" people).0 ≡ ok ("t1", public people ann))
    × (session toy_crypto 1209700 "t1"
          (login toy_crypto 100 "t1" "ann@x.org " "secret-pass" people).1
        ≡ some (public people ann))
unfolding check_password split_on strip lstrip rstrip
login-session_example =
    login-session toy_crypto 100 "t1" "ann@x.org " "secret-pass" people ann people-IsKeyed
      (first refl) refl refl refl (omega arith) 1209700 refl refl (omega arith)

slug-IsId_example : (is_workspace_id "eth-rsl" ≡ true) × (char_count "eth-rsl" ≤ 40)
unfolding slug dashed is_slug_char lstrip_dash rstrip_dash
slug-IsId_example = slug-IsId toy_crypto "-eth  rsl." "eth-rsl" refl
