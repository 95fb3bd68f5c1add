-- ===== src/Base/Lists.antt =====
-- Lists over the native numbers, with Boolean tests that run.
use Prim.Native.Nat.{ℕ, zero, suc, ◌+◌, ◌-◌, ◌≤◌, min}
use mathlib.Core.Path.{◌≡◌, refl, sym, subst, ap, ◌∙◌}
use mathlib.Core.Bool.{Bool, true, false, ◌||◌}
use mathlib.Core.Option.{Option, none, some}
use mathlib.Core.Logic.{inl, inr}
use mathlib.Core.List.{Memᴰ, List, [], ◌∷◌, ◌++◌}
use native.Mathlib.Omega.{arith}
use multi_tenant_siem.Base.Tests.{if◌then◌else◌, Bool-cases}

module _ {ℓ} {A : Type ℓ} where
  abbrev pub length : List A → ℕ
  length [] = 0
  length (x ∷ xs) = suc (length xs)

  abbrev pub take : ℕ → List A → List A
  take zero xs = []
  take (suc n) [] = []
  take (suc n) (x ∷ xs) = x ∷ take n xs

  abbrev pub drop : ℕ → List A → List A
  drop zero xs = xs
  drop (suc n) [] = []
  drop (suc n) (x ∷ xs) = drop n xs

  abbrev pub any : (A → Bool) → List A → Bool
  any p [] = false
  any p (x ∷ xs) = p x || any p xs

  abbrev pub keep : (A → Bool) → List A → List A
  keep p [] = []
  keep p (x ∷ xs) = let rest = keep p xs in if p x then x ∷ rest else rest

  abbrev pub is_empty : List A → Bool
  is_empty [] = true
  is_empty (x ∷ xs) = false

  abbrev pub head? : List A → Option A
  head? [] = none
  head? (x ∷ xs) = some x

  abbrev pub find : (A → Bool) → List A → Option A
  find p [] = none
  find p (x ∷ xs) = let rest = find p xs in if p x then some x else rest

-- `xs.slice(-n)`: the last `n` elements, or all.
abbrev pub take_last {ℓ} : {A : Type ℓ} → ℕ → List A → List A
take_last n xs = drop (length xs - n) xs

module _ {ℓ} {A : Type ℓ} where
  pub length-append : (xs ys : List A) → length (xs ++ ys) ≡ length xs + length ys
  length-append [] ys = omega arith
  length-append (x ∷ xs) ys = omega (arith, length-append xs ys)

  pub length-drop : (n : ℕ) (xs : List A) → length (drop n xs) ≡ length xs - n
  length-drop zero xs = omega arith
  length-drop (suc n) [] = omega arith
  length-drop (suc n) (x ∷ xs) = omega (arith, length-drop n xs)

  pub length-take_last : (n : ℕ) (xs : List A) → length (take_last n xs) ≡ min n (length xs)
  length-take_last n xs = omega (arith, length-drop (length xs - n) xs)

  pub keep-append : (p : A → Bool) (xs ys : List A) → keep p (xs ++ ys) ≡ keep p xs ++ keep p ys
  keep-append p [] ys = refl
  keep-append p (x ∷ xs) ys = ground (arith, keep-append p xs ys)

  pub any-append : (p : A → Bool) (xs ys : List A) → any p (xs ++ ys) ≡ (any p xs || any p ys)
  any-append p [] ys = refl
  any-append p (x ∷ xs) ys = ground (arith, any-append p xs ys)

  pub length-keep-le : (p : A → Bool) (xs : List A) → length (keep p xs) ≤ length xs
  length-keep-le p [] = omega arith
  length-keep-le p (x ∷ xs) = ground (arith, length-keep-le p xs)

module _ {ℓ κ} {A : Type ℓ} (P : A → Type κ) where
  abbrev pub All : List A → Type κ
  All [] = Unit
  All (x ∷ xs) = P x × All xs

  pub All-append : (xs ys : List A) → All xs → All ys → All (xs ++ ys)
  All-append [] ys hx hy = hy
  All-append (x ∷ xs) ys (p, hx) hy = (p, All-append xs ys hx hy)

-- What a filter keeps passes its test.
pub All-keep {ℓ} : {A : Type ℓ} (p : A → Bool) (xs : List A) → All (λ x. p x ≡ true) (keep p xs)
All-keep p [] = tt
All-keep p (x ∷ xs) = ground (arith, All-keep p xs)

module _ {ℓ} {A : Type ℓ} where
  pub any_of_mem : (r : A → Bool) {x : A} (xs : List A) → Memᴰ x xs → r x ≡ true → any r xs ≡ true
  any_of_mem r [] m h = elim m [ ]
  any_of_mem r (y ∷ xs) (Memᴰ.head e) h = rw (← e, h)
  any_of_mem r (y ∷ xs) (Memᴰ.tail m) h = rw (any_of_mem r xs m h) (ground arith)

  pub mem-keep : (q : A → Bool) {x : A} (xs : List A) → Memᴰ x xs → q x ≡ true → Memᴰ x (keep q xs)
  mem-keep q [] m h = elim m [ ]
  mem-keep q (y ∷ xs) (Memᴰ.head e) h = rw (← e, h) (Memᴰ.head refl)
  mem-keep q (y ∷ xs) (Memᴰ.tail m) h = elim (Bool-cases (q y)) [
    | inl kept ↦ rw kept (Memᴰ.tail (mem-keep q xs m h))
    | inr dropped ↦ rw dropped (mem-keep q xs m h)
  ]

  pub keep_none : (q : A → Bool) (xs : List A) → All (λ x. q x ≡ false) xs → keep q xs ≡ []
  keep_none q [] h = refl
  keep_none q (x ∷ xs) (p, h) = rw p (keep_none q xs h)

module _ {ℓ κ} {A : Type ℓ} (P : A → Type κ) where
  pub All-of_mem : (xs : List A) → ((x : A) → Memᴰ x xs → P x) → All P xs
  All-of_mem [] h = tt
  All-of_mem (x ∷ xs) h = (h x (Memᴰ.head refl), All-of_mem xs (λ y m. h y (Memᴰ.tail m)))

  pub All-mem : {x : A} (xs : List A) → All P xs → Memᴰ x xs → P x
  All-mem [] h m = elim m [ ]
  All-mem (y ∷ xs) (p, h) (Memᴰ.head e) = subst P (sym e) p
  All-mem (y ∷ xs) (p, h) (Memᴰ.tail m) = All-mem xs h m

  -- A filter keeps what holds of every element.
  pub All-keep_of_All : (q : A → Bool) (xs : List A) → All P xs → All P (keep q xs)
  All-keep_of_All q [] h = tt
  All-keep_of_All q (x ∷ xs) (p, h) = elim (Bool-cases (q x)) [
    | inl kept ↦ rw kept (p, All-keep_of_All q xs h)
    | inr dropped ↦ rw dropped (All-keep_of_All q xs h)
  ]

-- A filtered element passed the test and was in the list.
pub mem-keep_inv {ℓ} :
    {A : Type ℓ} (q : A → Bool) {x : A} (xs : List A)
    → Memᴰ x (keep q xs)
    → Memᴰ x xs × (q x ≡ true)
mem-keep_inv q [] m = elim m [ ]
mem-keep_inv q {x} (y ∷ xs) m = elim (Bool-cases (q y)) [
  | inl kept ↦
      kept_case (mem-keep_inv q xs) kept
        (subst (λ b. Memᴰ x (if b then y ∷ keep q xs else keep q xs)) kept m)
  | inr dropped ↦
      let (old, passed) =
        mem-keep_inv q xs
          (subst (λ b. Memᴰ x (if b then y ∷ keep q xs else keep q xs)) dropped m) in
      (Memᴰ.tail old, passed)
]
  where
    kept_case :
        (Memᴰ x (keep q xs) → Memᴰ x xs × (q x ≡ true))
        → q y ≡ true
        → Memᴰ x (y ∷ keep q xs)
        → Memᴰ x (y ∷ xs) × (q x ≡ true)
    kept_case ih kept (Memᴰ.head e) = (Memᴰ.head e, ap q e ∙ kept)
    kept_case ih kept (Memᴰ.tail m') = (Memᴰ.tail (ih m').0, (ih m').1)
