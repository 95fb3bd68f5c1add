-- ===== src/Http/Groups/Limits.antt =====
-- What limits and orders keep of the groups (LIMIT and ORDER BY in
-- ingestion-service/internal/repository/analytics_repository.go), and what a scan of them reads.
use mathlib.Core.List.{Permᴰ}
use mathlib.Core.Path.{subst}
use multi_tenant_siem.Base.{
  ℕ, zero, suc, ◌≤◌, ◌≡◌, refl, sym, ap, ◌∙◌, not, Option, some, List, [], ◌∷◌, map, arith, length,
  All, All-keep_of_All, take, length-keep-le,
}
use multi_tenant_siem.Http.Groups.{
  Key, distinct, occurrences, IsDescending, text_key, nullable_key, group_counts, Database,
}
use multi_tenant_siem.Http.Analytics.{scan_rows, read_groups}

-- A group of rows in which the column is not NULL.
abbrev pub wrap : {K : Type 0} → K × ℕ → Option K × ℕ
wrap (v, n) = (some v, n)

-- The groups without the option.
unwrap :
    {K : Type 0} (groups : List (Option K × ℕ))
    → All (λ g. (v : K) × (g.0 ≡ some v)) groups
    → (gs : List (K × ℕ)) × (groups ≡ map wrap gs)
unwrap [] h = ([], refl)
unwrap ((o, n) ∷ groups) ((v, e), h) =
    let (gs, same) = unwrap groups h in ((v, n) ∷ gs, rw (e, same) refl)

scan_rows-wrap :
    {K R : Type 0} (make : K → ℕ → R) (gs : List (K × ℕ))
    → scan_rows make (map wrap gs) ≡ some (map (λ g. make g.0 g.1) gs)
unfolding scan_rows
scan_rows-wrap make [] = refl
scan_rows-wrap make (g ∷ gs) = rw (scan_rows-wrap make gs, scan_rows) refl

pub All-perm : {A : Type 0} (P : A → Type 0) {xs ys : List A} → Permᴰ xs ys → All P ys → All P xs
All-perm P Permᴰ.nil h = tt
All-perm P (Permᴰ.cons e p) (q, h) = (subst P (sym e) q, All-perm P p h)
All-perm P (Permᴰ.swap e f) (q, (r, h)) = (subst P (sym e) r, (subst P (sym f) q, h))
All-perm P (Permᴰ.trans p q) h = All-perm P p (All-perm P q h)

pub All-take : {A : Type 0} (P : A → Type 0) (n : ℕ) (xs : List A) → All P xs → All P (take n xs)
All-take P zero xs h = tt
All-take P (suc n) [] h = tt
All-take P (suc n) (x ∷ xs) (p, h) = (p, All-take P n xs h)

pub length-take-le : {A : Type 0} (n : ℕ) (xs : List A) → length (take n xs) ≤ n
length-take-le zero xs = omega arith
length-take-le (suc n) [] = omega arith
length-take-le (suc n) (x ∷ xs) = omega (arith, length-take-le n xs)

length-take : {A : Type 0} (n : ℕ) (xs : List A) → length (take n xs) ≤ length xs
length-take zero xs = omega arith
length-take (suc n) [] = omega arith
length-take (suc n) (x ∷ xs) = omega (arith, length-take n xs)

pub length-take-take : {A : Type 0} (n m : ℕ) (xs : List A) → length (take n (take m xs)) ≤ m
length-take-take n m xs = omega (arith, length-take n (take m xs), length-take-le m xs)

pub All-weaken :
    {A : Type 0} (P Q : A → Type 0) → ((x : A) → P x → Q x) → (xs : List A) → All P xs → All Q xs
All-weaken P Q f [] h = tt
All-weaken P Q f (x ∷ xs) (p, h) = (f x p, All-weaken P Q f xs h)

pub take-all : {A : Type 0} (n : ℕ) (xs : List A) → length xs ≤ n → take n xs ≡ xs
take-all zero [] h = refl
take-all zero (x ∷ xs) h = absurd (omega arith)
take-all (suc n) [] h = refl
take-all (suc n) (x ∷ xs) h = ap (◌∷◌ x) (take-all n xs (omega arith))

pub length-perm : {A : Type 0} {xs ys : List A} → Permᴰ xs ys → length xs ≡ length ys
length-perm Permᴰ.nil = refl
length-perm (Permᴰ.cons _ p) = ap suc (length-perm p)
length-perm (Permᴰ.swap _ _) = refl
length-perm (Permᴰ.trans p q) = length-perm p ∙ length-perm q

length-distinct-le : {K : Type 0} ⦃k : Key K⦄ (xs : List K) → length (distinct xs) ≤ length xs
unfolding distinct
length-distinct-le [] = omega arith
length-distinct-le ⦃k⦄ (x ∷ xs) =
    omega
      (arith, length-keep-le (λ y. not (k.same x y)) (distinct xs), length-distinct-le ⦃k = k⦄ xs)

pub take-IsDescending :
    {K : Type 0} (n : ℕ) (groups : List (K × ℕ))
    → IsDescending groups
    → IsDescending (take n groups)
take-IsDescending zero groups h = tt
take-IsDescending (suc n) [] h = tt
take-IsDescending (suc zero) (g ∷ groups) h = tt
take-IsDescending (suc (suc n)) (g ∷ []) h = tt
take-IsDescending (suc (suc n)) (g ∷ j ∷ groups) (le, h) =
    (le, take-IsDescending (suc n) (j ∷ groups) h)

pub All-distinct :
    {K : Type 0} ⦃k : Key K⦄ (P : K → Type 0) (xs : List K) → All P xs → All P (distinct xs)
unfolding distinct
All-distinct P [] h = tt
All-distinct ⦃k⦄ P (x ∷ xs) (p, h) =
    (p, All-keep_of_All P (λ y. not (k.same x y)) (distinct xs) (All-distinct P xs h))

pub All-map_inv :
    {A B : Type 0} (P : B → Type 0) (f : A → B) (xs : List A)
    → All P (map f xs)
    → All (λ x. P (f x)) xs
All-map_inv P f [] h = tt
All-map_inv P f (x ∷ xs) (p, h) = (p, All-map_inv P f xs h)

pub length-map : {A B : Type 0} (f : A → B) (xs : List A) → length (map f xs) ≡ length xs
length-map f [] = refl
length-map f (x ∷ xs) = ap suc (length-map f xs)

-- Where no column is NULL, every group that arrives is read.
pub read_groups-present :
    {K R : Type 0} (db : Database) (make : K → ℕ → R) (n : ℕ) (groups : List (Option K × ℕ))
    → All (λ g. (v : K) × (g.0 ≡ some v)) groups
    → (gs : List (K × ℕ)) × (read_groups db (some n) make groups
        ≡ some (map (λ g. make g.0 g.1) gs))
      × (take n groups ≡ map wrap gs)
unfolding read_groups
read_groups-present db make n groups present =
    let (gs, same) = unwrap (take n groups) (All-take _ n groups present) in
    (gs, ap (scan_rows make) same ∙ scan_rows-wrap make gs, same)

module _ {K : Type 0} ⦃k : Key K⦄ (P : K → Type 0) where
  -- The groups of values with a property, each with the count of its value.
  groups_with :
      (vs : List K) (xs : List K)
      → All P vs
      → All
          (λ (g : K × ℕ). P g.0 × (g.1 ≡ occurrences g.0 xs))
          (map (λ v. (v, occurrences v xs)) vs)
  groups_with [] xs h = tt
  groups_with (v ∷ vs) xs (p, h) = ((p, refl), groups_with vs xs h)

  pub All-group_counts :
      (xs : List K)
      → All P xs
      → All (λ (g : K × ℕ). P g.0 × (g.1 ≡ occurrences g.0 xs)) (group_counts xs)
  All-group_counts xs h = groups_with (distinct xs) xs (All-distinct P xs h)

pub length-group_counts-le :
    {K : Type 0} ⦃k : Key K⦄ (xs : List K) → length (group_counts xs) ≤ length xs
length-group_counts-le {K} xs = omega (
  arith,
  length-distinct-le xs,
  length-map {B = K × ℕ} (λ x. (x, occurrences x xs)) (distinct xs),
)
