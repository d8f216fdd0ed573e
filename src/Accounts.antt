-- ===== src/Accounts.antt =====
-- Accounts of a private instance, backend/app/accounts.py: people, sign-ins, sessions and share links.
pub mod Sessions
pub mod People
pub mod Shares
pub mod Lockout
pub mod Revoked
pub mod Ended
pub mod Keys
pub mod Passwords
pub mod SignIn
pub mod Slug
use veyra_demo.Prelude.{
  Bool, List, Option, String, [], false, if◌then◌else◌, none, some, ℕ, ◌&&◌, ◌*◌, ◌==◌, ◌∷◌,
}
use veyra_demo.Python.Result.{Result}
use veyra_demo.Python.Text.{split_on, strip, ◌&◌}

pub record User : Type 0 where
  pub id : String
  pub email : String
  pub name : String
  pub workspace_id : String
  pub password_hash : String
  pub disabled : Bool
  pub created_at : ℕ

pub record Session : Type 0 where
  pub token_hash : String
  pub user_id : String
  pub created_at : ℕ
  pub expires_at : ℕ

pub record Failure : Type 0 where
  pub email : String
  pub failed_at : ℕ

pub record Share : Type 0 where
  pub token_hash : String
  pub id : String
  pub workspace_id : String
  pub case_id : String
  pub created_by : String
  pub created_at : ℕ
  pub expires_at : ℕ
  pub revoked_at : Option ℕ

-- The tables of `SCHEMA`; a workspace is its id and its name. Times are in seconds.
pub record AccountsDb : Type 0 where
  pub workspaces : List (String × String)
  pub users : List User
  pub sessions : List Session
  pub failures : List Failure
  pub shares : List Share

-- Taken from outside: SHA-256 of a token; scrypt of a password and a salt, both as the texts that
-- `hash_password` stores (the salt in hexadecimal, as it always is there); and `str.lower`.
pub record Crypto : Type 0 where
  pub hash_token : String → String
  pub scrypt : String → String → String
  pub lower : String → String

abbrev pub session_days : ℕ
session_days = 14

abbrev pub lockout_failures : ℕ
lockout_failures = 5

abbrev pub lockout_window : ℕ
lockout_window = 15 * 60

-- `email.strip().lower()`
abbrev pub clean_email : Crypto → String → String
clean_email c email = c.lower (strip email)

-- `check_password(password, stored)`, of the parts between the "$" and of the stored text
abbrev pub check_parts : Crypto → String → List String → Bool
check_parts c password (kind ∷ salt ∷ digest ∷ []) =
    kind == "scrypt" && c.scrypt password salt == digest
check_parts c password _ = false

unfoldable pub check_password : Crypto → String → String → Bool
unfolding split_on
check_password c password stored = check_parts c password (split_on 36 stored)

-- `hash_password(password)`, with the salt that it draws
abbrev pub hash_password : Crypto → String → String → String
hash_password c password salt = "scrypt$" & (salt & ("$" & c.scrypt password salt))

-- `fetchone()` of the user with an email, and with an id
abbrev pub user_with : (User → Bool) → List User → Option User
user_with test [] = none
user_with test (u ∷ us) = if test u then some u else user_with test us

-- What `_public` returns.
pub record Public : Type 0 where
  pub id : String
  pub email : String
  pub name : String
  pub workspace_id : String
  pub workspace_name : String

abbrev workspace_name_of : List (String × String) → String → String
workspace_name_of [] w = w
workspace_name_of ((id, name) ∷ ws) w = if id == w then name else workspace_name_of ws w

unfoldable pub public : AccountsDb → User → Public
public db u = record {
  id = u.id;
  email = u.email;
  name = u.name;
  workspace_id = u.workspace_id;
  workspace_name = workspace_name_of db.workspaces u.workspace_id;
}

abbrev pub AccountsAction : Type 0 → Type 0
AccountsAction A = AccountsDb → Result A × AccountsDb
