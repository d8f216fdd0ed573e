-- ===== src/Python/Value.antt =====
-- Python's values as a JSON payload holds them, and the operations that the program applies to a
-- value whose type it has not checked.
use veyra_demo.Prelude.{
  Bool, Bool-cases, List, Option, String, [], any, ap, arith, eq_iff, false, if◌then◌else◌, inl,
  inr, leb, ltb, map, nat_eq, none, not, refl, some, suc, sym, true, zero, ℕ, ◌&&◌, ◌*◌, ◌-◌, ◌==◌,
  ◌^◌, ◌∙◌, ◌∷◌, ◌≡◌,
}
use veyra_demo.Python.Result.{
  Result, attribute_error, err, key_error, ok, raise_if, type_error, ◌>>=◌, ◌>>◌,
}
use veyra_demo.Python.Text.{characters, is_empty, is_substring}

-- An integer: `negsuc n` is -(n + 1).
pub data ℤ : Type 0 where
  pos : ℕ → ℤ
  negsuc : ℕ → ℤ

-- A double: `binary m k` is m / 2 ^ k exactly, and each finite double has that form.
pub data Float : Type 0 where
  binary : ℤ → ℕ → Float
  infinite : Bool → Float
  nan : Float

mutual
  pub data Value : Type 0 where
    null : Value
    bool : Bool → Value
    int : ℤ → Value
    float : Float → Value
    str : String → Value
    arr : Items → Value
    obj : Dict → Value

  pub data Items : Type 0 where
    nil : Items
    cons : Value → Items → Items

  -- A dictionary with text keys, in insertion order.
  pub data Dict : Type 0 where
    empty : Dict
    entry : String → Value → Dict → Dict

abbrev pub items : Items → List Value
items nil = []
items (cons v vs) = v ∷ items vs

abbrev pub of_items : List Value → Items
of_items [] = nil
of_items (v ∷ vs) = cons v (of_items vs)

-- A dictionary display `{k: v, …}` with distinct keys.
abbrev pub dict : List (String × Value) → Dict
dict [] = empty
dict ((k, v) ∷ kvs) = entry k v (dict kvs)

abbrev pub strs : List String → Items
strs [] = nil
strs (s ∷ ss) = cons (str s) (strs ss)

abbrev pub texts : List String → Value
texts ss = arr (strs ss)

abbrev pub text? : Option String → Value
text? none = null
text? (some s) = str s

abbrev pub lookup : String → Dict → Option Value
lookup k empty = none
lookup k (entry j v d) = if j == k then some v else lookup k d

-- `k in d`
abbrev pub has : String → Dict → Bool
has k d = elim (lookup k d) [ none ↦ false | some _ ↦ true ]

-- `d.get(k)`
abbrev pub get : String → Dict → Value
get k d = elim (lookup k d) [ none ↦ null | some v ↦ v ]

-- `d[k] = v`
abbrev pub insert : String → Value → Dict → Dict
insert k v empty = entry k v empty
insert k v (entry j w d) = if j == k then entry k v d else entry j w (insert k v d)

-- `d.update(e)`, `{**d, **e}`
abbrev pub update : Dict → Dict → Dict
update d empty = d
update d (entry k v e) = update (insert k v d) e

-- `d[k]` of a dictionary
abbrev pub item : String → Dict → Result Value
item k d = elim (lookup k d) [ none ↦ err (key_error k) | some v ↦ ok v ]

-- `v[k]` of a value that need not be a dictionary
abbrev pub subscript : String → Value → Result Value
subscript k (obj d) = item k d
subscript k _ = err type_error

-- `v.get(k)` of a value that need not be a dictionary
abbrev pub dot_get : String → Value → Result Value
dot_get k (obj d) = ok (get k d)
dot_get k _ = err attribute_error

abbrev pub keys : Dict → List Value
keys empty = []
keys (entry k v d) = str k ∷ keys d

-- `len(d)`
abbrev pub size : Dict → ℕ
size empty = 0
size (entry k v d) = suc (size d)

abbrev is_zero : ℤ → Bool
is_zero (pos zero) = true
is_zero _ = false

-- `bool(v)`
abbrev pub truthy : Value → Bool
truthy null = false
truthy (bool b) = b
truthy (int n) = not (is_zero n)
truthy (float (binary m k)) = not (is_zero m)
truthy (float _) = true
truthy (str s) = not (is_empty s)
truthy (arr nil) = false
truthy (arr (cons _ _)) = true
truthy (obj empty) = false
truthy (obj (entry _ _ _)) = true

-- `v == s` for a text `s`
abbrev pub is_str : String → Value → Bool
is_str s (str t) = t == s
is_str s _ = false

abbrev pub text_of? : Value → Option String
text_of? (str s) = some s
text_of? _ = none

-- the texts of a list all of whose items are texts
abbrev pub all_texts? : Items → Option (List String)
all_texts? nil = some []
all_texts? (cons (str s) vs) = elim (all_texts? vs) [ none ↦ none | some ss ↦ some (s ∷ ss) ]
all_texts? (cons _ vs) = none

-- a value that can be a key
abbrev pub is_hashable : Value → Bool
is_hashable (arr _) = false
is_hashable (obj _) = false
is_hashable _ = true

-- `v or w`
abbrev pub or_value : Value → Value → Value
or_value v w = if truthy v then v else w

-- `isinstance(v, int)`: a Boolean is one
abbrev pub is_int : Value → Bool
is_int (int _) = true
is_int (bool _) = true
is_int _ = false

-- The number that a value is, a Boolean being 0 or 1.
abbrev pub number? : Value → Option Float
number? (bool b) = some (binary (pos (if b then 1 else 0)) 0)
number? (int n) = some (binary n 0)
number? (float x) = some x
number? _ = none

abbrev scale : ℤ → ℕ → ℤ
scale (pos n) k = pos (n * 2 ^ k)
scale (negsuc n) k = negsuc ((suc n) * 2 ^ k - 1)

abbrev int_eq : ℤ → ℤ → Bool
int_eq (pos m) (pos n) = nat_eq m n
int_eq (negsuc m) (negsuc n) = nat_eq m n
int_eq _ _ = false

abbrev bool_eq : Bool → Bool → Bool
bool_eq a b = if a then b else not b

abbrev pub float_eq : Float → Float → Bool
float_eq (binary m j) (binary n k) = int_eq (scale m k) (scale n j)
float_eq (infinite a) (infinite b) = bool_eq a b
float_eq _ _ = false

abbrev pub number_eq : Option Float → Option Float → Bool
number_eq (some x) (some y) = float_eq x y
number_eq _ _ = false

abbrev is_null : Value → Bool
is_null null = true
is_null _ = false

-- `v == w`: numbers by their value, dictionaries without regard to order.
unfoldable mutual
  pub value_eq : Value → Value → Bool
  value_eq null w = is_null w
  value_eq (bool b) w = number_eq (number? (bool b)) (number? w)
  value_eq (int n) w = number_eq (number? (int n)) (number? w)
  value_eq (float x) w = number_eq (number? (float x)) (number? w)
  value_eq (str s) w = is_str s w
  value_eq (arr vs) w = elim w [ arr ws ↦ items_eq vs ws | _ ↦ false ]
  value_eq (obj d) w = elim w [ obj e ↦ nat_eq (size d) (size e) && dict_within d e | _ ↦ false ]

  pub items_eq : Items → Items → Bool
  items_eq nil ws = elim ws [ nil ↦ true | cons _ _ ↦ false ]
  items_eq (cons v vs) ws = elim ws [ nil ↦ false | cons w ws' ↦ value_eq v w && items_eq vs ws' ]

  -- every key of `d` is in `e`, with an equal value
  pub dict_within : Dict → Dict → Bool
  dict_within empty e = true
  dict_within (entry k v d) e = elim (lookup k e) [
    | none ↦ false
    | some w ↦ value_eq v w && dict_within d e
  ]

-- `v in w`
abbrev pub member : Value → Value → Result Bool
member v (arr ws) = ok (any (value_eq v) (items ws))
member v (obj d) =
    if is_hashable v then ok (elim v [ str k ↦ has k d | _ ↦ false ]) else err type_error
member v (str t) = elim v [ str s ↦ ok (is_substring s t) | _ ↦ err type_error ]
member v _ = err type_error

-- `for v in value`
abbrev pub iterate : Value → Result (List Value)
iterate (arr vs) = ok (items vs)
iterate (obj d) = ok (keys d)
iterate (str s) = ok (map str (characters s))
iterate _ = err type_error

-- `for v in value or []`
abbrev pub iterate_or_empty : Value → Result (List Value)
iterate_or_empty v = if truthy v then iterate v else ok []

-- `{row[key]: row for row in rows}.get(name)`, over the rows after `found`
unfoldable pub last_with : String → String → Option Value → List Value → Result (Option Value)
last_with key name found [] = ok found
last_with key name found (row ∷ rows) = do
  k ← subscript key row
  raise_if (not (is_hashable k)) type_error
  last_with key name (if is_str name k then some row else found) rows

-- `0 <= x <= hi`
abbrev pub is_up_to : ℕ → Float → Bool
is_up_to hi (binary (pos m) k) = leb m (hi * 2 ^ k)
is_up_to hi _ = false

-- `x < 0 or x > hi`
abbrev pub is_outside : ℕ → Float → Bool
is_outside hi (binary (pos m) k) = ltb (hi * 2 ^ k) m
is_outside hi (binary (negsuc m) k) = true
is_outside hi (infinite negative) = true
is_outside hi nan = false

-- A value that equals a text is that text.
pub value_eq-str : (v : Value) (s : String) → value_eq v (str s) ≡ true → v ≡ str s
unfolding value_eq
value_eq-str null s h = cc
value_eq-str (bool b) s h = cc
value_eq-str (int n) s h = cc
value_eq-str (float x) s h = cc
value_eq-str (str t) s h = sym (ap str ((eq_iff s t).0 h))
value_eq-str (arr vs) s h = cc
value_eq-str (obj d) s h = cc

pub is_str-eq : (s : String) (v : Value) → is_str s v ≡ true → v ≡ str s
is_str-eq s null h = cc
is_str-eq s (bool b) h = cc
is_str-eq s (int n) h = cc
is_str-eq s (float x) h = cc
is_str-eq s (str t) h = ap str ((eq_iff t s).0 h)
is_str-eq s (arr vs) h = cc
is_str-eq s (obj d) h = cc

-- the dictionary has no such key
abbrev pub Lacks : String → Dict → Type 0
Lacks k d = has k d ≡ false

lookup-insert_ne :
    (k j : String) (v : Value) (d : Dict) → (j == k) ≡ false → lookup k (insert j v d) ≡ lookup k d
lookup-insert_ne k j v empty h = ground arith
lookup-insert_ne k j v (entry i w d) h =
    ground (arith, eq_iff i j, eq_iff j k, eq_iff i k, lookup-insert_ne k j v d h)

-- An update with a dictionary that lacks the key leaves it alone.
pub lookup-update : (k : String) (d e : Dict) → Lacks k e → lookup k (update d e) ≡ lookup k d
lookup-update k d empty h = refl
lookup-update k d (entry j v e) h = elim (Bool-cases (j == k)) [
  | inl same ↦ ground arith
  | inr other ↦ lookup-update k (insert j v d) e (ground arith) ∙ lookup-insert_ne k j v d other
]

pub get-update : (k : String) (d e : Dict) → Lacks k e → get k (update d e) ≡ get k d
get-update k d e h = ground (arith, lookup-update k d e h)

pub Lacks-update : (k : String) (d e : Dict) → Lacks k d → Lacks k e → Lacks k (update d e)
Lacks-update k d e hd he = ground (arith, lookup-update k d e he)

pub item-get : (k : String) (d : Dict) {v : Value} → item k d ≡ ok v → get k d ≡ v
item-get k d h = ground arith
