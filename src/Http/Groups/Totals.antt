-- ===== src/Http/Groups/Totals.antt =====
-- The groups of a table have all its rows, each in one group, in whatever order they come
-- (ingestion-service/internal/repository/analytics_repository.go).
use mathlib.Core.List.{Permᴰ}
use multi_tenant_siem.Base.{
  ℕ, ◌+◌, ◌≡◌, refl, ap, ◌∙◌, not, List, [], ◌∷◌, map, arith, if◌then◌else◌, length, any, keep, All,
  All-of_mem, any_of_mem,
}
use multi_tenant_siem.Http.Groups.{Key, distinct, occurrences, group_counts, total}

pub total-perm : {K : Type 0} {xs ys : List (K × ℕ)} → Permᴰ xs ys → total xs ≡ total ys
total-perm Permᴰ.nil = refl
total-perm (Permᴰ.cons {a} {b} e p) = omega (arith, ap (λ (g : _ × ℕ). g.1) e, total-perm p)
total-perm (Permᴰ.swap e f) = omega (arith, ap (λ (g : _ × ℕ). g.1) e, ap (λ (g : _ × ℕ). g.1) f)
total-perm (Permᴰ.trans p q) = total-perm p ∙ total-perm q

module _ {K : Type 0} ⦃k : Key K⦄ where
  -- The rows of `xs` counted by the values of `ds`.
  counted : List K → List K → ℕ
  counted [] xs = 0
  counted (d ∷ ds) xs = occurrences d xs + counted ds xs

  counted-nil : (ds : List K) → counted ds [] ≡ 0
  unfolding counted occurrences
  counted-nil [] = refl
  counted-nil (d ∷ ds) = omega (arith, counted-nil ds)

  counted-cons :
      (ds : List K) (x : K) (xs : List K) → counted ds (x ∷ xs) ≡ occurrences x ds + counted ds xs
  unfolding counted occurrences
  counted-cons [] x xs = refl
  counted-cons (d ∷ ds) x xs = ground (arith, counted-cons ds x xs, k.same_iff d x, k.same_iff x d)

  occurrences-remove :
      (x y : K) (ds : List K)
      → occurrences x (keep (λ d. not (k.same y d)) ds)
        ≡ (if k.same y x then 0 else occurrences x ds)
  unfolding occurrences
  occurrences-remove x y [] = ground arith
  occurrences-remove x y (d ∷ ds) =
      ground (arith, occurrences-remove x y ds, k.same_iff y d, k.same_iff x d, k.same_iff y x)

  -- Among the distinct values each value of the table is there once.
  pub occurrences-distinct :
      (x : K) (xs : List K) → occurrences x (distinct xs) ≡ (if any (k.same x) xs then 1 else 0)
  unfolding occurrences distinct
  occurrences-distinct x [] = refl
  occurrences-distinct x (y ∷ ys) = ground (
    arith,
    occurrences-distinct x ys,
    occurrences-remove x y (distinct ys),
    k.same_iff x y,
    k.same_iff y x,
  )

  counted-distinct :
      (ds : List K) (xs : List K) → total (map (λ d. (d, occurrences d xs)) ds) ≡ counted ds xs
  unfolding counted
  counted-distinct [] xs = refl
  counted-distinct (d ∷ ds) xs = omega (arith, counted-distinct ds xs)

  -- If each value of `ys` is there once in `ds`, the values of `ds` count all of `ys`.
  counted-once : (ds ys : List K) → All (λ y. occurrences y ds ≡ 1) ys → counted ds ys ≡ length ys
  counted-once ds [] h = counted-nil ds
  counted-once ds (y ∷ ys) (p, h) = omega (arith, counted-cons ds y ys, counted-once ds ys h)

  each_once : (xs : List K) → All (λ x. occurrences x (distinct xs) ≡ 1) xs
  each_once xs = All-of_mem _ xs λ x m.
      occurrences-distinct x xs
      ∙ ap (λ b. if b then 1 else 0) (any_of_mem (k.same x) xs m ((k.same_iff x x).1 refl))

  pub total-group_counts : (xs : List K) → total (group_counts xs) ≡ length xs
  total-group_counts xs =
      counted-distinct (distinct xs) xs ∙ counted-once (distinct xs) xs (each_once xs)
