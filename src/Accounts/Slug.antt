-- ===== src/Accounts/Slug.antt =====
-- The ids of workspaces: what `_slug` leaves of a name, against the pattern that `workspace_db` asks for.
use Prim.Native.String.append
use veyra_demo.Accounts.{Crypto}
use veyra_demo.Accounts.People.{
  all_slug, dashed, is_dash, is_slug_char, is_workspace_id, lstrip_dash, rstrip_dash, slug,
}
use veyra_demo.Prelude.{
  &&_split, Bool, Bool-cases, String, arith, false, inl, inr, refl, subst, suc, true, zero, ℕ, ◌&&◌,
  ◌≡◌, ◌≤◌,
}
use veyra_demo.Python.Result.{ok}
use veyra_demo.Python.Text.{char_count, is_empty, prefix}

-- a text that is empty or starts as an id does
abbrev begins_well : String → Bool
begins_well String.[] = true
begins_well (String.◌∷◌ x s) = is_slug_char x && all_slug s

dashed-slug : (b : Bool) (s : String) → all_slug (dashed b s) ≡ true
unfolding dashed
dashed-slug b String.[] = refl
dashed-slug b (String.◌∷◌ x s) = elim (Bool-cases (is_slug_char x)) [
  | inl fine ↦ rw (fine, fine) (dashed-slug false s)
  | inr other ↦ rw other (elim (Bool-cases b) [
    | inl inside ↦ rw inside (dashed-slug true s)
    | inr new ↦
        rw (new, append.cons "-" String.[] (dashed true s), append.nil (dashed true s))
          (dashed-slug true s)
  ])
]

lstrip_dash-begins : (s : String) → all_slug s ≡ true → begins_well (lstrip_dash s) ≡ true
unfolding lstrip_dash
lstrip_dash-begins String.[] h = refl
lstrip_dash-begins (String.◌∷◌ x s) h = ground (arith, lstrip_dash-begins s)

rstrip_dash-slug : (s : String) → all_slug s ≡ true → all_slug (rstrip_dash s) ≡ true
unfolding rstrip_dash
rstrip_dash-slug String.[] h = refl
rstrip_dash-slug (String.◌∷◌ x s) h = ground (arith, rstrip_dash-slug s)

rstrip_dash-begins : (s : String) → begins_well s ≡ true → begins_well (rstrip_dash s) ≡ true
unfolding rstrip_dash
rstrip_dash-begins String.[] h = refl
rstrip_dash-begins (String.◌∷◌ x s) h = elim (Bool-cases (is_empty (rstrip_dash s) && is_dash x)) [
  | inl cut ↦ rw cut refl
  | inr kept ↦
      let (head, tail) = &&_split (is_slug_char x) (all_slug s) h in
      rw (kept, head) (rstrip_dash-slug s tail)
]

prefix-slug : (n : ℕ) (s : String) → all_slug s ≡ true → all_slug (prefix n s) ≡ true
prefix-slug zero s h = refl
prefix-slug (suc n) String.[] h = refl
prefix-slug (suc n) (String.◌∷◌ x s) h = ground (arith, prefix-slug n s)

prefix-begins : (n : ℕ) (s : String) → begins_well s ≡ true → begins_well (prefix n s) ≡ true
prefix-begins zero s h = refl
prefix-begins (suc n) String.[] h = refl
prefix-begins (suc n) (String.◌∷◌ x s) h = ground (arith, prefix-slug n s)

prefix-count : (n : ℕ) (s : String) → char_count (prefix n s) ≤ n
unfolding char_count
prefix-count zero s = omega arith
prefix-count (suc n) String.[] = omega arith
prefix-count (suc n) (String.◌∷◌ x s) = omega (arith, prefix-count n s)

begins_well-IsId :
    (s : String)
    → begins_well s ≡ true
    → is_empty s ≡ false
    → char_count s ≤ 63
    → is_workspace_id s ≡ true
unfolding is_workspace_id char_count
begins_well-IsId String.[] h full short = cc
begins_well-IsId (String.◌∷◌ x s) h full short = ground arith

-- A name that `_slug` accepts gives an id that matches the pattern of `workspace_db`, with at most 40 characters. So no
-- workspace is stored whose database file is then refused.
pub slug-IsId :
    (c : Crypto) (name w : String)
    → slug c name ≡ ok w
    → (is_workspace_id w ≡ true) × (char_count w ≤ 40)
unfolding slug
slug-IsId c name w h = elim (Bool-cases (is_empty cut)) [
  | inl blank ↦ cc (rw blank at h)
  | inr full ↦
      let same : cut ≡ w = cc (rw full at h) in
      subst (λ t. (is_workspace_id t ≡ true) × (char_count t ≤ 40)) same
        (
          begins_well-IsId cut well full (omega (arith, prefix-count 40 whole)),
          prefix-count 40 whole,
        )
]
  where
    whole : String
    whole = rstrip_dash (lstrip_dash (dashed false (c.lower name)))

    cut : String
    cut = prefix 40 whole

    well : begins_well cut ≡ true
    well = prefix-begins 40 whole (
        rstrip_dash-begins (lstrip_dash (dashed false (c.lower name)))
          (lstrip_dash-begins (dashed false (c.lower name)) (dashed-slug false (c.lower name))))
