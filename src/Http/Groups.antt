-- ===== src/Http/Groups.antt =====
-- What the queries of ingestion-service/internal/repository/analytics_repository.go use of SQL:
-- GROUP BY with COUNT(*), COUNT(DISTINCT …), and ORDER BY count DESC, which leaves open how groups of one
-- count are ordered.
pub mod Totals
pub mod Limits
pub mod Places
use mathlib.Core.List.{Permᴰ}
use multi_tenant_siem.Base.{
  ℕ, zero, suc, ◌+◌, ◌-◌, ◌≤◌, ◌<◌, String, ◌≡◌, refl, sym, ap, ◌∙◌, ◌≢◌, ◌↔◌, ◌⊎◌, inl, inr, Bool,
  true, false, not, ◌&&◌, ◌||◌, Option, none, some, List, [], ◌∷◌, ◌++◌, map, arith, ltb, leb, ◌==◌,
  ==_iff, str_eq, eq_iff, eq_refl, if◌then◌else◌, Bool-cases, Option-cases, length, any, keep, All,
  Memᴰ,
}
use multi_tenant_siem.Js.{Value}

-- Values that the database compares.
pub record Key (K : Type 0) : Type 0 where
  pub same : K → K → Bool
  pub same_iff : (a b : K) → (same a b ≡ true) ↔ (a ≡ b)

instance abbrev pub number_key : Key ℕ
number_key = record { same = ◌==◌; same_iff = ==_iff }

instance abbrev pub text_key : Key String
text_key = record { same = str_eq; same_iff = eq_iff }

module _ {K : Type 0} ⦃k : Key K⦄ where
  -- NULL is `none`; GROUP BY takes it for a value of its own.
  abbrev nullable_same : Option K → Option K → Bool
  nullable_same none none = true
  nullable_same (some a) (some b) = k.same a b
  nullable_same _ _ = false

  pub nullable_same_iff : (a b : Option K) → (nullable_same a b ≡ true) ↔ (a ≡ b)
  nullable_same_iff none none = (λ _. refl, λ _. refl)
  nullable_same_iff none (some b) = ground arith
  nullable_same_iff (some a) none = ground arith
  nullable_same_iff (some a) (some b) = ground (arith, k.same_iff a b)

  instance abbrev pub nullable_key : Key (Option K)
  nullable_key = record { same = nullable_same; same_iff = nullable_same_iff }

  -- The values without repetition.
  unfoldable pub distinct : List K → List K
  distinct [] = []
  distinct (x ∷ xs) = x ∷ keep (λ y. not (k.same x y)) (distinct xs)

  -- How often a value is there.
  unfoldable pub occurrences : K → List K → ℕ
  occurrences x [] = 0
  occurrences x (y ∷ ys) = let n = occurrences x ys in if k.same x y then suc n else n

  -- GROUP BY with COUNT(*)
  abbrev pub group_counts : List K → List (K × ℕ)
  group_counts xs = map (λ x. (x, occurrences x xs)) (distinct xs)

-- The sum of the counts.
abbrev pub total : {K : Type 0} → List (K × ℕ) → ℕ
total [] = 0
total ((_, n) ∷ groups) = n + total groups

-- No count is below the next.
abbrev pub IsDescending : {K : Type 0} → List (K × ℕ) → Type 0
IsDescending [] = Unit
IsDescending (_ ∷ []) = Unit
IsDescending ((_, n) ∷ (j, m) ∷ groups) = (m ≤ n) × IsDescending ((j, m) ∷ groups)

-- What the database gives: ORDER BY count DESC, the text that `->>` makes of an object or an array,
-- and the cast `::int`, `none` if the text is no number.
pub record Database : Type 1 where
  pub order : {K : Type 0} → List (K × ℕ) → List (K × ℕ)
  pub order-perm : {K : Type 0} (groups : List (K × ℕ)) → Permᴰ (order groups) groups
  pub order-IsDescending : {K : Type 0} (groups : List (K × ℕ)) → IsDescending (order groups)
  pub nested_text : Value → String
  pub to_int : String → Option ℕ
