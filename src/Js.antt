-- ===== src/Js.antt =====
-- JavaScript values as `JSON.parse` and `response.json()` make them, and what
-- frontend/src/App.jsx does with them: truthiness, `===`, reading a property, conversion to text.
-- Numbers are the non-negative integers that the API sends.
use multi_tenant_siem.Base.{
  ℕ, zero, suc, String, ◌≡◌, refl, Bool, true, false, not, Option, none, some, List, [], ◌∷◌, arith,
  str_eq, eq_iff, eq_refl, ◌==◌, if◌then◌else◌, decimal, concat,
}

mutual
  pub data Value : Type 0 where
    undefined null : Value
    str : String → Value
    num : ℕ → Value
    bool : Bool → Value
    obj : Fields → Value
    arr : Items → Value

  pub data Fields : Type 0 where
    end : Fields
    field : String → Value → Fields → Fields

  pub data Items : Type 0 where
    nil : Items
    cons : Value → Items → Items

abbrev pub elements : Items → List Value
elements nil = []
elements (cons v vs) = v ∷ elements vs

abbrev pub array : List Value → Items
array [] = nil
array (v ∷ vs) = cons v (array vs)

-- `Array.isArray(v)`, with the elements
abbrev pub as_array : Value → Option (List Value)
as_array (arr vs) = some (elements vs)
as_array _ = none

abbrev pub truthy : Value → Bool
truthy undefined = false
truthy null = false
truthy (bool b) = b
truthy (num zero) = false
truthy (num (suc n)) = true
truthy (str s) = not (str_eq s "")
truthy _ = true

-- `a || b`
abbrev pub or_else : Value → Value → Value
or_else a b = if truthy a then a else b

abbrev pub field_of : String → Fields → Value
field_of k end = undefined
field_of k (field j v fs) = if str_eq j k then v else field_of k fs

-- `v.k`; `none` is the TypeError at `undefined` and `null`. The names that the page reads are
-- members of no string, number or array.
abbrev pub get : String → Value → Option Value
get k undefined = none
get k null = none
get k (obj fs) = some (field_of k fs)
get k _ = some undefined

-- `v.k` behind a guard which has shown that `v` is neither `undefined` nor `null`
abbrev pub member : String → Value → Value
member k (obj fs) = field_of k fs
member k _ = undefined

abbrev pub bool_eq : Bool → Bool → Bool
bool_eq true b = b
bool_eq false b = not b

-- `a === b`, for `a` and `b` from different texts: two arrays or objects are never identical
unfoldable pub strict_eq : Value → Value → Bool
strict_eq undefined undefined = true
strict_eq null null = true
strict_eq (bool a) (bool b) = bool_eq a b
strict_eq (num a) (num b) = a == b
strict_eq (str a) (str b) = str_eq a b
strict_eq _ _ = false

-- A value that `===` compares by its content.
abbrev pub IsPrimitive : Value → Type 0
IsPrimitive (arr _) = ⊥
IsPrimitive (obj _) = ⊥
IsPrimitive _ = Unit

pub strict_eq_self : (v : Value) → IsPrimitive v → strict_eq v v ≡ true
unfolding strict_eq
strict_eq_self undefined h = refl
strict_eq_self null h = refl
strict_eq_self (bool b) h = ground arith
strict_eq_self (num n) h = ground arith
strict_eq_self (str s) h = eq_refl s
strict_eq_self (arr _) h = absurd h
strict_eq_self (obj _) h = absurd h

-- `===` is sound: identical values are equal.
pub eq_of_strict_eq : (a b : Value) → strict_eq a b ≡ true → a ≡ b
unfolding strict_eq
eq_of_strict_eq undefined undefined h = refl
eq_of_strict_eq null null h = refl
eq_of_strict_eq (bool a) (bool b) h = ground arith
eq_of_strict_eq (num a) (num b) h = ground arith
eq_of_strict_eq (str a) (str b) h = ground (arith, eq_iff a b)
eq_of_strict_eq _ _ h = cc

abbrev bool_text : Bool → String
bool_text true = "true"
bool_text false = "false"

-- An element of an array that is joined: `undefined` and `null` leave nothing.
abbrev item_text : Value → String → String
item_text undefined text = ""
item_text null text = ""
item_text _ text = text

-- `${v}`; an array is its elements joined by commas
unfoldable mutual
  pub text_of : Value → String
  text_of undefined = "undefined"
  text_of null = "null"
  text_of (bool b) = bool_text b
  text_of (num n) = decimal n
  text_of (str s) = s
  text_of (arr vs) = text_of_items vs
  text_of (obj fs) = "[object Object]"

  pub text_of_items : Items → String
  text_of_items nil = ""
  text_of_items (cons v nil) = item_text v (text_of v)
  text_of_items (cons v (cons w vs)) =
      concat (item_text v (text_of v) ∷ "," ∷ text_of_items (cons w vs) ∷ [])

joined : text_of (arr (cons (num 4) (cons null (cons (str "x") nil)))) ≡ "4,,x"
unfolding text_of text_of_items decimal
joined = refl
