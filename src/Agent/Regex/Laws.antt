-- ===== src/Agent/Regex/Laws.antt =====
-- When a group takes exactly a given part of a text (the patterns of log-agent/parser).
use Prim.Native.Char.{Char, code}
use Prim.Native.String
use package.text.Mathlib.TextLemmas.{nil-append, cons-append}
use multi_tenant_siem.Base.{
  ℕ, String, ◌≡◌, refl, ap, true, false, not, none, some, List, ◌∷◌, arith, ◌==◌,
}
use multi_tenant_siem.Agent.Regex.{
  Class, Piece, text, greedy, lazy, greedy_one, lazy_one, strip, Rest, take_most, take_least,
  cons_group, match_here,
}

-- Every character of the text is in the set.
abbrev pub AllIn : Class → String → Type 0
AllIn p String.[] = Unit
AllIn p (String.◌∷◌ c s) = (p c ≡ true) × AllIn p s

abbrev pub is_not : ℕ → Class
is_not d c = not (code c == d)

abbrev pub HasChars : String → Type 0
HasChars String.[] = ⊥
HasChars (String.◌∷◌ c s) = Unit

-- The text does not go on with a character of the set.
abbrev pub Stops : Class → String → Type 0
Stops p String.[] = Unit
Stops p (String.◌∷◌ c s) = p c ≡ false

-- What follows matches only texts that begin with the character.
pub record Needs (d : ℕ) (k : Rest) : Type 0 where
  pub at_end : k "" ≡ none
  pub at_other : (c : Char) (s : String) → (code c == d) ≡ false → k (String.◌∷◌ c s) ≡ none

pub strip-append : (t s : String) → strip t (String.◌++◌ t s) ≡ some s
unfolding strip
strip-append String.[] s = rw nil-append refl
strip-append (String.◌∷◌ d t) s = rw cons-append (ground (arith, strip-append t s))

pub Needs-text :
    (c : Char) (t : String) (ps : List Piece)
    → Needs (code c) (λ s. match_here (text (String.◌∷◌ c t) ∷ ps) s)
unfolding match_here strip
Needs-text c t ps = record { at_end = refl; at_other = λ d s h. ground arith }

module _ (p : Class) (k : Rest) where
  take_least_here :
      (s : String) (groups : List String) → k s ≡ some groups → take_least p k s ≡ some ("", groups)
  unfolding take_least
  take_least_here String.[] groups h = rw h refl
  take_least_here (String.◌∷◌ c s) groups h = rw h refl

  -- A lazy group takes what is before the first character that what follows needs.
  pub take_least_lem :
      (d : ℕ) (g rest : String) (groups : List String)
      → AllIn p g
      → AllIn (is_not d) g
      → Needs d k
      → k rest ≡ some groups
      → take_least p k (String.◌++◌ g rest) ≡ some (g, groups)
  unfolding take_least
  take_least_lem d String.[] rest groups h n needs e = rw nil-append (take_least_here rest groups e)
  take_least_lem d (String.◌∷◌ c g) rest groups (hc, h) (nc, n) needs e = rw cons-append (
      rw
        (
          needs.at_other c (String.◌++◌ g rest) (ground arith),
          hc,
          take_least_lem d g rest groups h n needs e,
        )
        refl)

  take_most_here :
      (s : String) (groups : List String)
      → Stops p s
      → k s ≡ some groups
      → take_most p k s ≡ some ("", groups)
  unfolding take_most
  take_most_here String.[] groups h e = rw e refl
  take_most_here (String.◌∷◌ c s) groups h e = rw (h, e) refl

  -- A greedy group takes the characters of its set up to one that is not in it.
  pub take_most_lem :
      (g rest : String) (groups : List String)
      → AllIn p g
      → Stops p rest
      → k rest ≡ some groups
      → take_most p k (String.◌++◌ g rest) ≡ some (g, groups)
  unfolding take_most
  take_most_lem String.[] rest groups h stops e = rw nil-append (take_most_here rest groups stops e)
  take_most_lem (String.◌∷◌ c g) rest groups (hc, h) stops e =
      rw cons-append (rw (hc, take_most_lem g rest groups h stops e) refl)

  take_most-none : (d : ℕ) (s : String) → AllIn (is_not d) s → Needs d k → take_most p k s ≡ none
  unfolding take_most
  take_most-none d String.[] n needs = rw needs.at_end refl
  take_most-none d (String.◌∷◌ c s) (nc, n) needs =
      rw (needs.at_other c s (ground arith), take_most-none d s n needs) (ground arith)

  -- A greedy group that may go on takes all up to the last place where what follows matches.
  pub take_most_last :
      (d : ℕ) (c : Char) (g rest : String) (groups : List String)
      → AllIn p g
      → AllIn (is_not d) rest
      → Needs d k
      → k (String.◌∷◌ c rest) ≡ some groups
      → take_most p k (String.◌++◌ g (String.◌∷◌ c rest)) ≡ some (g, groups)
  unfolding take_most
  take_most_last d c String.[] rest groups h n needs e =
      rw nil-append (rw (take_most-none d rest n needs, e) (ground arith))
  take_most_last d c (String.◌∷◌ x g) rest groups (hx, h) n needs e =
      rw cons-append (rw (hx, take_most_last d c g rest groups h n needs e) refl)

-- The pieces of a pattern, in front of a text that they match.
module _ (ps : List Piece) (groups : List String) where
  abbrev Matches : String → Type 0
  Matches s = match_here ps s ≡ some groups

  pub match-text :
      (t s : String) → Matches s → match_here (text t ∷ ps) (String.◌++◌ t s) ≡ some groups
  unfolding match_here
  match-text t s h = rw (strip-append t s, match_here) h

  pub match-lazy :
      (p : Class) (d : ℕ) (g s : String)
      → AllIn p g
      → AllIn (is_not d) g
      → Needs d (λ t. match_here ps t)
      → Matches s
      → match_here (lazy p ∷ ps) (String.◌++◌ g s) ≡ some (g ∷ groups)
  unfolding match_here
  match-lazy p d g s h n needs e =
      ap cons_group (take_least_lem p (λ t. match_here ps t) d g s groups h n needs e)

  pub match-lazy_one :
      (p : Class) (d : ℕ) (g s : String)
      → HasChars g
      → AllIn p g
      → AllIn (is_not d) g
      → Needs d (λ t. match_here ps t)
      → Matches s
      → match_here (lazy_one p ∷ ps) (String.◌++◌ g s) ≡ some (g ∷ groups)
  unfolding match_here
  match-lazy_one p d String.[] s there h n needs e = absurd there
  match-lazy_one p d (String.◌∷◌ c g) s there (hc, h) (nc, n) needs e =
      rw cons-append
        (rw (hc, take_least_lem p (λ t. match_here ps t) d g s groups h n needs e) refl)

  pub match-greedy_one :
      (p : Class) (g s : String)
      → HasChars g
      → AllIn p g
      → Stops p s
      → Matches s
      → match_here (greedy_one p ∷ ps) (String.◌++◌ g s) ≡ some (g ∷ groups)
  unfolding match_here
  match-greedy_one p String.[] s there h stops e = absurd there
  match-greedy_one p (String.◌∷◌ c g) s there (hc, h) stops e =
      rw cons-append (rw (hc, take_most_lem p (λ t. match_here ps t) g s groups h stops e) refl)

  pub match-greedy :
      (p : Class) (d : ℕ) (c : Char) (g s : String)
      → AllIn p g
      → AllIn (is_not d) s
      → Needs d (λ t. match_here ps t)
      → Matches (String.◌∷◌ c s)
      → match_here (greedy p ∷ ps) (String.◌++◌ g (String.◌∷◌ c s)) ≡ some (g ∷ groups)
  unfolding match_here
  match-greedy p d c g s h n needs e =
      ap cons_group (take_most_last p (λ t. match_here ps t) d c g s groups h n needs e)

pub AllIn-append : (p : Class) (s t : String) → AllIn p s → AllIn p t → AllIn p (String.◌++◌ s t)
AllIn-append p String.[] t hs ht = rw nil-append ht
AllIn-append p (String.◌∷◌ c s) t (hc, hs) ht = rw cons-append (hc, AllIn-append p s t hs ht)

pub AllIn-weaken :
    (p q : Class) (s : String) → ((c : Char) → p c ≡ true → q c ≡ true) → AllIn p s → AllIn q s
AllIn-weaken p q String.[] f h = tt
AllIn-weaken p q (String.◌∷◌ c s) f (hc, h) = (f c hc, AllIn-weaken p q s f h)
