-- ===== src/Accounts/People.antt =====
-- Workspaces and people: `_slug`, `add_workspace`, `add_user` and the check of `workspace_db`.
use Prim.Native.Char.{Char, code}
use veyra_demo.Accounts.{AccountsAction, AccountsDb, Crypto, User, clean_email, hash_password}
use veyra_demo.Prelude.{
  Bool, String, [], elem, false, if◌then◌else◌, leb, ltb, map, nat_eq, not, true, ℕ, ◌&&◌, ◌++◌,
  ◌||◌, ◌∷◌,
}
use veyra_demo.Python.Result.{Result, account_error, err, ok}
use veyra_demo.Python.Text.{char_count, is_empty, is_space, prefix, strip, ◌&◌}

unfoldable pub is_slug_char : Char → Bool
is_slug_char c = (leb 48 (code c) && leb (code c) 57) || (leb 97 (code c) && leb (code c) 122)

abbrev pub is_dash : Char → Bool
is_dash c = nat_eq (code c) 45

-- `re.sub(r"[^a-z0-9]+", "-", …)`, from within such a stretch or not
unfoldable pub dashed : Bool → String → String
unfolding is_slug_char
dashed in_stretch String.[] = String.[]
dashed in_stretch (String.◌∷◌ c s) =
    if is_slug_char c
    then String.◌∷◌ c (dashed false s)
    else if in_stretch
    then dashed true s
    else "-" & dashed true s

-- `.strip("-")`
unfoldable pub lstrip_dash : String → String
lstrip_dash String.[] = String.[]
lstrip_dash (String.◌∷◌ c s) =
    let rest = lstrip_dash s in if is_dash c then rest else String.◌∷◌ c s

unfoldable pub rstrip_dash : String → String
rstrip_dash String.[] = String.[]
rstrip_dash (String.◌∷◌ c s) =
    let rest = rstrip_dash s in if is_empty rest && is_dash c then String.[] else String.◌∷◌ c rest

-- `_slug(name)`
unfoldable pub slug : Crypto → String → Result String
unfolding dashed lstrip_dash rstrip_dash
slug c name =
    let s = prefix 40 (rstrip_dash (lstrip_dash (dashed false (c.lower name)))) in
    if is_empty s
    then err (account_error "Give the workspace a name with letters or digits")
    else ok s

abbrev pub all_slug : String → Bool
all_slug String.[] = true
all_slug (String.◌∷◌ c s) = (is_slug_char c || is_dash c) && all_slug s

-- the pattern of `workspace_db`
unfoldable pub is_workspace_id : String → Bool
unfolding is_slug_char char_count
is_workspace_id String.[] = false
is_workspace_id (String.◌∷◌ c s) = is_slug_char c && all_slug s && leb (char_count s) 62

abbrev pub has_workspace : String → AccountsDb → Bool
has_workspace w db = elem w (map (λ r. r.0) db.workspaces)

-- the rest of `add_workspace`, from the lookup on; the folder that `workspace_db` makes is outside of the tables
unfoldable pub insert_workspace : String → Result String → AccountsAction (String × String)
unfolding is_workspace_id
insert_workspace name (err e) db = (err e, db)
insert_workspace name (ok w) db =
    let added = record db { workspaces = db.workspaces ++ (w, strip name) ∷ [] } in
    if has_workspace w db
    then (err (account_error ("Workspace '" & (w & "' already exists"))), db)
    else if is_workspace_id w
    then (ok (w, strip name), added)
    else (err (account_error "Invalid workspace id"), added)

-- `add_workspace(name)`
unfoldable pub add_workspace : Crypto → String → AccountsAction (String × String)
unfolding slug insert_workspace
add_workspace c name db = insert_workspace name (slug c name) db

-- a character of `[^@\s]`, and the rest of a domain from its second character on
abbrev is_at : Char → Bool
is_at c = nat_eq (code c) 64

abbrev all_plain : String → Bool
all_plain String.[] = true
all_plain (String.◌∷◌ c s) = not (is_at c || is_space c) && all_plain s

abbrev has_inner_dot : String → Bool
has_inner_dot String.[] = false
has_inner_dot (String.◌∷◌ c s) = (nat_eq (code c) 46 && not (is_empty s)) || has_inner_dot s

abbrev is_domain : String → Bool
is_domain String.[] = false
is_domain (String.◌∷◌ c s) = all_plain (String.◌∷◌ c s) && has_inner_dot s

-- the pattern of `add_user`, with what was read before
abbrev pub is_email_from : Bool → String → Bool
is_email_from some_read String.[] = false
is_email_from some_read (String.◌∷◌ c s) =
    let rest = is_email_from true s in
    if is_at c then some_read && is_domain s else not (is_space c) && rest

-- What `add_user` returns.
pub record NewUser : Type 0 where
  pub id : String
  pub email : String
  pub name : String
  pub workspace_id : String
  pub password : String

-- `add_user(…)`, at a time and with the password, the salt and the id that it draws
unfoldable pub add_user :
    Crypto
    → ℕ
    → String
    → String
    → String
    → String
    → String
    → String
    → String
    → AccountsAction NewUser
add_user c now drawn salt user_id workspace_id address name given db =
    let email = clean_email c address in
    let password = if is_empty given then drawn else given in
    if not (is_email_from false email)
    then (err (account_error "Give a valid email address"), db)
    else if not (has_workspace workspace_id db)
    then (err (account_error ("No workspace '" & (workspace_id & "'"))), db)
    else if is_empty (strip name)
    then (err (account_error "Give the person's name: it is shown on every record they make"), db)
    else if ltb (char_count password) 10
    then (err (account_error "Passwords need at least 10 characters"), db)
    else if elem email (map (λ (u : User). u.email) db.users)
        || elem user_id (map (λ (u : User). u.id) db.users)
    then (err (account_error (email & " already has an account")), db)
    else (
      ok (record {
        id = user_id;
        email = email;
        name = strip name;
        workspace_id = workspace_id;
        password = password;
      }),
      record db {
        users =
            db.users
            ++ record {
              id = user_id;
              email = email;
              name = prefix 120 (strip name);
              workspace_id = workspace_id;
              password_hash = hash_password c password salt;
              disabled = false;
              created_at = now;
            }
              ∷ [];
      },
    )
