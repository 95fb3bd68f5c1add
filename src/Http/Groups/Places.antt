-- ===== src/Http/Groups/Places.antt =====
-- Which groups a limit leaves (ORDER BY count DESC with LIMIT in
-- ingestion-service/internal/repository/analytics_repository.go).
use mathlib.Core.List.{Permᴰ}
use multi_tenant_siem.Base.{
  Bool, keep, ℕ, zero, suc, ◌≤◌, ◌≡◌, refl, sym, ap, ◌∙◌, ◌⊎◌, inl, inr, not, List, [], ◌∷◌, map,
  arith, Bool-cases, length, All, take, min, Memᴰ, keep, mem-keep,
}
use multi_tenant_siem.Http.Groups.Totals.{occurrences-distinct}
use multi_tenant_siem.Http.Groups.{Key, distinct, occurrences, group_counts, IsDescending}

pub mem-map : {A B : Type 0} (f : A → B) {x : A} (xs : List A) → Memᴰ x xs → Memᴰ (f x) (map f xs)
mem-map f [] m = elim m [ ]
mem-map f (y ∷ xs) (Memᴰ.head e) = Memᴰ.head (ap f e)
mem-map f (y ∷ xs) (Memᴰ.tail m) = Memᴰ.tail (mem-map f xs m)

pub mem-perm : {A : Type 0} {x : A} {xs ys : List A} → Permᴰ xs ys → Memᴰ x ys → Memᴰ x xs
mem-perm Permᴰ.nil m = m
mem-perm (Permᴰ.cons e p) (Memᴰ.head h) = Memᴰ.head (h ∙ sym e)
mem-perm (Permᴰ.cons e p) (Memᴰ.tail m) = Memᴰ.tail (mem-perm p m)
mem-perm (Permᴰ.swap e f) (Memᴰ.head h) = Memᴰ.tail (Memᴰ.head (h ∙ sym f))
mem-perm (Permᴰ.swap e f) (Memᴰ.tail (Memᴰ.head h)) = Memᴰ.head (h ∙ sym e)
mem-perm (Permᴰ.swap e f) (Memᴰ.tail (Memᴰ.tail m)) = Memᴰ.tail (Memᴰ.tail m)
mem-perm (Permᴰ.trans p q) m = mem-perm p (mem-perm q m)

module _ {K : Type 0} ⦃k : Key K⦄ where
  mem-distinct : {x : K} (xs : List K) → Memᴰ x xs → Memᴰ x (distinct xs)
  unfolding distinct
  mem-distinct [] m = elim m [ ]
  mem-distinct (y ∷ xs) (Memᴰ.head e) = Memᴰ.head e
  mem-distinct {x} (y ∷ xs) (Memᴰ.tail m) = elim (Bool-cases (k.same y x)) [
    | inl same ↦ Memᴰ.head (sym ((k.same_iff y x).0 same))
    | inr other ↦
        Memᴰ.tail
          (mem-keep (λ z. not (k.same y z)) (distinct xs) (mem-distinct xs m) (ap not other))
  ]

  -- Every value that is there has its group, with its count.
  pub mem-group_counts :
      {x : K} (xs : List K) → Memᴰ x xs → Memᴰ (x, occurrences x xs) (group_counts xs)
  mem-group_counts {x} xs m = mem-map (λ y. (y, occurrences y xs)) (distinct xs) (mem-distinct xs m)

-- The group is among those that are left, or these are as many as the limit and none of them has a
-- lower count.
abbrev pub Placed : {K : Type 0} → ℕ → K × ℕ → List (K × ℕ) → Type 0
Placed limit g left = Memᴰ g left ⊎ ((length left ≡ limit) × All (λ h. g.1 ≤ h.1) left)

mem-IsDescending_le :
    {K : Type 0} {g : K × ℕ} (h : K × ℕ) (groups : List (K × ℕ))
    → IsDescending (h ∷ groups)
    → Memᴰ g groups
    → g.1 ≤ h.1
mem-IsDescending_le h [] d m = elim m [ ]
mem-IsDescending_le h (j ∷ groups) (le, d) (Memᴰ.head e) = let same = ap (λ p. p.1) e in omega arith
mem-IsDescending_le h (j ∷ groups) (le, d) (Memᴰ.tail m) =
    omega (arith, mem-IsDescending_le j groups d m)

IsDescending-rest :
    {K : Type 0} (h : K × ℕ) (groups : List (K × ℕ))
    → IsDescending (h ∷ groups)
    → IsDescending groups
IsDescending-rest h [] d = tt
IsDescending-rest h (j ∷ groups) (le, d) = d

pub take-Placed :
    {K : Type 0} {g : K × ℕ} (n : ℕ) (groups : List (K × ℕ))
    → IsDescending groups
    → Memᴰ g groups
    → Placed n g (take n groups)
take-Placed zero groups d m = inr (omega arith, tt)
take-Placed (suc n) [] d m = elim m [ ]
take-Placed (suc n) (h ∷ groups) d (Memᴰ.head e) = inl (Memᴰ.head e)
take-Placed (suc n) (h ∷ groups) d (Memᴰ.tail m) =
    elim (take-Placed n groups (IsDescending-rest h groups d) m) [
      | inl there ↦ inl (Memᴰ.tail there)
      | inr (full, above) ↦ inr (ap suc full, (mem-IsDescending_le h groups d m, above))
    ]

pub take-take : {A : Type 0} (n m : ℕ) (xs : List A) → take n (take m xs) ≡ take (min n m) xs
take-take zero m xs = let none_left : min 0 m ≡ 0 = omega arith in rw none_left refl
take-take (suc n) zero xs = let none_left : min (suc n) 0 ≡ 0 = omega arith in rw none_left refl
take-take (suc n) (suc m) [] =
    let more : min (suc n) (suc m) ≡ suc (min n m) = omega arith in rw more refl
take-take (suc n) (suc m) (x ∷ xs) =
    let more : min (suc n) (suc m) ≡ suc (min n m) = omega arith in
    rw more (ap (◌∷◌ x) (take-take n m xs))

length-keep-perm :
    {A : Type 0} (q : A → Bool) {xs ys : List A}
    → Permᴰ xs ys
    → length (keep q xs) ≡ length (keep q ys)
length-keep-perm q Permᴰ.nil = refl
length-keep-perm q (Permᴰ.cons e p) =
    let h = length-keep-perm q p in rw (ap q e) (ground (arith, h))
length-keep-perm q (Permᴰ.swap e f) = rw (ap q e, ap q f) (ground arith)
length-keep-perm q (Permᴰ.trans p r) = length-keep-perm q p ∙ length-keep-perm q r

length-keep-take :
    {A : Type 0} (q : A → Bool) (n : ℕ) (xs : List A)
    → length (keep q (take n xs)) ≤ length (keep q xs)
length-keep-take q zero xs = omega arith
length-keep-take q (suc n) [] = omega arith
length-keep-take q (suc n) (x ∷ xs) = ground (arith, length-keep-take q n xs)

module _ {K : Type 0} ⦃k : Key K⦄ (v : K) where
  groups_of_value :
      (c : K → ℕ) (vs : List K)
      → length (keep (λ (g : K × ℕ). k.same v g.0) (map (λ x. (x, c x)) vs)) ≡ occurrences v vs
  unfolding occurrences
  groups_of_value c [] = refl
  groups_of_value c (x ∷ vs) = ground (arith, groups_of_value c vs)

  -- In any order and under any limits a value has one group at most.
  pub group_counts-once :
      (n m : ℕ) (xs : List K) (groups : List (K × ℕ))
      → Permᴰ groups (group_counts xs)
      → length (keep (λ (g : K × ℕ). k.same v g.0) (take n (take m groups))) ≤ 1
  group_counts-once n m xs groups p = ground (
    arith,
    length-keep-take (λ (g : K × ℕ). k.same v g.0) n (take m groups),
    length-keep-take (λ (g : K × ℕ). k.same v g.0) m groups,
    length-keep-perm (λ (g : K × ℕ). k.same v g.0) p,
    groups_of_value (λ x. occurrences x xs) (distinct xs),
    occurrences-distinct v xs,
  )
