-- ===== src/Agent/Regex.antt =====
-- What log-agent/parser uses of Go's `regexp`: of the ways to match a pattern, the first one in the
-- order of its choices. `*` and `+` take as much as they can first, `*?` and `+?` as little.
pub mod Laws
use Prim.Native.Char.{Char, code}
use Prim.Native.String
use multi_tenant_siem.Base.{
  ℕ, zero, suc, ◌+◌, ◌-◌, ◌≤◌, ◌<◌, String, ◌≡◌, refl, sym, ap, ◌∙◌, ◌≢◌, ◌↔◌, ◌⊎◌, inl, inr, Bool,
  true, false, not, ◌&&◌, ◌||◌, Option, none, some, List, [], ◌∷◌, ◌++◌, arith, ltb, leb, ◌==◌,
  str_eq, eq_iff, eq_refl, if◌then◌else◌, Bool-cases, Option-cases, length, any, keep, All, Memᴰ,
}

-- A set of characters.
abbrev pub Class : Type 0
Class = Char → Bool

-- `.`
abbrev pub any_char : Class
any_char c = not (code c == b'\n')

-- `\d`
abbrev pub is_digit : Class
is_digit c = leb b'0' (code c) && leb (code c) b'9'

-- `\w`
abbrev pub is_word : Class
is_word c =
    is_digit c
    || (leb b'a' (code c) && leb (code c) b'z')
    || (leb b'A' (code c) && leb (code c) b'Z')
    || (code c == b'_')

-- A pattern is a list of pieces: a text, an optional text, or a captured group of characters, which
-- has at least one character or may be empty, and is greedy or lazy.
pub data Piece : Type 0 where
  text optional : String → Piece
  greedy lazy greedy_one lazy_one : Class → Piece

-- The rest of a text behind a prefix.
unfoldable pub strip : String → String → Option String
strip String.[] s = some s
strip (String.◌∷◌ d t) String.[] = none
strip (String.◌∷◌ d t) (String.◌∷◌ c s) = if code d == code c then strip t s else none

-- What is left of a match: the groups behind, if the rest of the pattern matches.
abbrev pub Rest : Type 0
Rest = String → Option (List String)

-- A group with what it took, in front of the groups behind it.
abbrev pub longer : Char → Option (String × List String) → Option (String × List String)
longer c none = none
longer c (some (t, groups)) = some (String.◌∷◌ c t, groups)

abbrev pub ends : Option (List String) → Option (String × List String)
ends none = none
ends (some groups) = some ("", groups)

abbrev pub or_else_try {ℓ} : {A : Type ℓ} → Option A → Option A → Option A
or_else_try none b = b
or_else_try (some a) b = some a

-- A greedy group: a longer one first.
unfoldable pub take_most : Class → Rest → String → Option (String × List String)
take_most p k String.[] = ends (k "")
take_most p k (String.◌∷◌ c s) =
    let more = longer c (take_most p k s) in
    or_else_try (if p c then more else none) (ends (k (String.◌∷◌ c s)))

-- A lazy group: a shorter one first.
unfoldable pub take_least : Class → Rest → String → Option (String × List String)
take_least p k String.[] = ends (k "")
take_least p k (String.◌∷◌ c s) =
    let more = longer c (take_least p k s) in
    or_else_try (ends (k (String.◌∷◌ c s))) (if p c then more else none)

abbrev pub after_one :
    Class → (String → Option (String × List String)) → String → Option (String × List String)
after_one p take String.[] = none
after_one p take (String.◌∷◌ c s) = if p c then longer c (take s) else none

abbrev pub cons_group : Option (String × List String) → Option (List String)
cons_group none = none
cons_group (some (t, groups)) = some (t ∷ groups)

-- The groups of the first match at the beginning of the text.
unfoldable pub match_here : List Piece → String → Option (List String)
unfolding strip take_most take_least
match_here [] s = some []
match_here (text t ∷ ps) s = elim (strip t s) [ none ↦ none | some rest ↦ match_here ps rest ]
match_here (optional t ∷ ps) s = elim (strip t s) [
  | none ↦ match_here ps s
  | some rest ↦ or_else_try (match_here ps rest) (match_here ps s)
]
match_here (greedy p ∷ ps) s = cons_group (take_most p (λ t. match_here ps t) s)
match_here (lazy p ∷ ps) s = cons_group (take_least p (λ t. match_here ps t) s)
match_here (greedy_one p ∷ ps) s = cons_group (after_one p (take_most p (λ t. match_here ps t)) s)
match_here (lazy_one p ∷ ps) s = cons_group (after_one p (take_least p (λ t. match_here ps t)) s)

-- `FindStringSubmatch` of a pattern without `^`: the leftmost match.
unfoldable pub search : List Piece → String → Option (List String)
unfolding match_here
search ps String.[] = match_here ps ""
search ps (String.◌∷◌ c s) = or_else_try (match_here ps (String.◌∷◌ c s)) (search ps s)
