-- ===== src/Accounts/Passwords.antt =====
-- Passwords: what `check_password` reads of a text that `hash_password` stored.
use Prim.Native.String.append
use Prim.Native.Char.{Char, code}
use veyra_demo.Accounts.{Crypto, check_password, hash_password}
use veyra_demo.Prelude.{
  &&_split, Bool, String, [], ap, eq_iff, nat_eq, nat_eq_refl, not, not-true, refl, true, ℕ, ◌&&◌,
  ◌↔◌, ◌∙◌, ◌∷◌, ◌≡◌,
}
use veyra_demo.Python.Text.{split_on, ◌&◌}

-- no character of a text has the given number, as no hexadecimal text has a "$"
abbrev pub is_without : ℕ → String → Bool
is_without n String.[] = true
is_without n (String.◌∷◌ x s) = not (nat_eq (code x) n) && is_without n s

pub split_on-is_without : (n : ℕ) (s : String) → is_without n s ≡ true → split_on n s ≡ s ∷ []
unfolding split_on
split_on-is_without n String.[] h = refl
split_on-is_without n (String.◌∷◌ x s) h =
    let (other, rest) = &&_split _ _ h in
    rw (not-true (nat_eq (code x) n) other, split_on-is_without n s rest) refl

pub split_on-first :
    (x : Char) (s t : String)
    → is_without (code x) s ≡ true
    → split_on (code x) (s & String.◌∷◌ x t) ≡ s ∷ split_on (code x) t
unfolding split_on
split_on-first x String.[] t h = rw (append.nil (String.◌∷◌ x t), nat_eq_refl (code x)) refl
split_on-first x (String.◌∷◌ y s) t h =
    let (other, rest) = &&_split _ _ h in
    rw
      (
        append.cons y s (String.◌∷◌ x t),
        not-true (nat_eq (code y) (code x)) other,
        split_on-first x s t rest,
      )
      refl

dollar : (t : String) → "$" & t ≡ String.◌∷◌ "$" t
dollar t = append.cons "$" String.[] t ∙ ap (λ r. String.◌∷◌ "$" r) (append.nil t)

scrypt_dollar : (t : String) → "scrypt$" & t ≡ "scrypt" & String.◌∷◌ "$" t
scrypt_dollar t =
    rw
      (
        append.cons "s" "crypt$" t,
        append.cons "c" "rypt$" t,
        append.cons "r" "ypt$" t,
        append.cons "y" "pt$" t,
        append.cons "p" "t$" t,
        append.cons "t" "$" t,
        dollar t,
        append.cons "s" "crypt" (String.◌∷◌ "$" t),
        append.cons "c" "rypt" (String.◌∷◌ "$" t),
        append.cons "r" "ypt" (String.◌∷◌ "$" t),
        append.cons "y" "pt" (String.◌∷◌ "$" t),
        append.cons "p" "t" (String.◌∷◌ "$" t),
        append.cons "t" "" (String.◌∷◌ "$" t),
        append.nil (String.◌∷◌ "$" t),
      )
      refl

split_on-hash_password :
    (c : Crypto) (password salt : String)
    → is_without 36 salt ≡ true
    → is_without 36 (c.scrypt password salt) ≡ true
    → split_on 36 (hash_password c password salt) ≡ "scrypt" ∷ salt ∷ c.scrypt password salt ∷ []
split_on-hash_password c password salt plain hex =
    let digest = c.scrypt password salt in
    rw
      (
        scrypt_dollar (salt & ("$" & digest)),
        split_on-first "$" "scrypt" (salt & ("$" & digest)) refl,
        dollar digest,
        split_on-first "$" salt digest plain,
        split_on-is_without 36 digest hex,
      )
      refl

-- A password passes against the text that `hash_password` stored for a password exactly when scrypt gives both the same
-- digest under the drawn salt, when salt and digest have no "$", as hexadecimal texts have none. So the password itself passes.
pub check_password-hash_password :
    (c : Crypto) (given password salt : String)
    → is_without 36 salt ≡ true
    → is_without 36 (c.scrypt password salt) ≡ true
    → (check_password c given (hash_password c password salt) ≡ true)
      ↔ (c.scrypt given salt ≡ c.scrypt password salt)
unfolding check_password
check_password-hash_password c given password salt plain hex =
    rw (split_on-hash_password c password salt plain hex)
      (eq_iff (c.scrypt given salt) (c.scrypt password salt))
