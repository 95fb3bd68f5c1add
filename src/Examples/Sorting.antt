-- ===== src/Examples/Sorting.antt =====
-- A database for the examples: it sorts groups by insertion, and its texts of nested values and its
-- cast are those of short tables (the queries of
-- ingestion-service/internal/repository/analytics_repository.go).
use mathlib.Core.List.{Permᴰ}
use mathlib.Core.List.Permᴰ
use multi_tenant_siem.Base.{
  ℕ, ◌≤◌, refl, inl, inr, List, [], ◌∷◌, arith, leb, Bool-cases, if◌then◌else◌,
}
use multi_tenant_siem.Http.Groups.{Database, IsDescending}
use multi_tenant_siem.Js.{text_of}
use multi_tenant_siem.Agent.Nginx.{atoi}

module _ {K : Type 0} where
  unfoldable pub insert : K × ℕ → List (K × ℕ) → List (K × ℕ)
  insert g [] = g ∷ []
  insert g (j ∷ rest) = if leb j.1 g.1 then g ∷ j ∷ rest else j ∷ insert g rest

  unfoldable pub sort : List (K × ℕ) → List (K × ℕ)
  unfolding insert
  sort [] = []
  sort (g ∷ rest) = insert g (sort rest)

  insert-perm : (g : K × ℕ) (rest : List (K × ℕ)) → Permᴰ (insert g rest) (g ∷ rest)
  unfolding insert
  insert-perm g [] = Permᴰ.refl (g ∷ [])
  insert-perm g (j ∷ rest) = elim (Bool-cases (leb j.1 g.1)) [
    | inl below ↦ rw (below, insert) (Permᴰ.refl (g ∷ j ∷ rest))
    | inr above ↦
        rw (above, insert)
          (Permᴰ.trans (Permᴰ.cons refl (insert-perm g rest)) (Permᴰ.swap refl refl))
  ]

  pub sort-perm : (groups : List (K × ℕ)) → Permᴰ (sort groups) groups
  unfolding sort
  sort-perm [] = Permᴰ.nil
  sort-perm (g ∷ rest) = Permᴰ.trans (insert-perm g (sort rest)) (Permᴰ.cons refl (sort-perm rest))

  -- The first count is at most that of the group.
  abbrev IsBelow : K × ℕ → List (K × ℕ) → Type 0
  IsBelow j [] = Unit
  IsBelow j (i ∷ rest) = i.1 ≤ j.1

  IsDescending-cons :
      (j : K × ℕ) (rest : List (K × ℕ))
      → IsBelow j rest
      → IsDescending rest
      → IsDescending (j ∷ rest)
  IsDescending-cons j [] below h = tt
  IsDescending-cons j (i ∷ rest) below h = (below, h)

  IsDescending-tail :
      (j : K × ℕ) (rest : List (K × ℕ))
      → IsDescending (j ∷ rest)
      → IsBelow j rest × IsDescending rest
  IsDescending-tail j [] h = (tt, tt)
  IsDescending-tail j (i ∷ rest) h = h

  insert-IsBelow :
      (j g : K × ℕ) (rest : List (K × ℕ)) → g.1 ≤ j.1 → IsBelow j rest → IsBelow j (insert g rest)
  unfolding insert
  insert-IsBelow j g [] le below = le
  insert-IsBelow j g (i ∷ rest) le below = elim (Bool-cases (leb i.1 g.1)) [
    | inl first ↦ rw (first, insert) le
    | inr later ↦ rw (later, insert) below
  ]

  insert-IsDescending :
      (g : K × ℕ) (rest : List (K × ℕ)) → IsDescending rest → IsDescending (insert g rest)
  unfolding insert
  insert-IsDescending g [] h = tt
  insert-IsDescending g (j ∷ rest) h = elim (Bool-cases (leb j.1 g.1)) [
    | inl first ↦ rw (first, insert) (ground arith, h)
    | inr later ↦
        let (below, h') = IsDescending-tail j rest h in
        rw (later, insert)
          (IsDescending-cons j (insert g rest) (insert-IsBelow j g rest (ground arith) below)
            (insert-IsDescending g rest h'))
  ]

  pub sort-IsDescending : (groups : List (K × ℕ)) → IsDescending (sort groups)
  unfolding sort
  sort-IsDescending [] = tt
  sort-IsDescending (g ∷ rest) = insert-IsDescending g (sort rest) (sort-IsDescending rest)

abbrev pub sorted : Database
sorted = record {
  order = λ {K} groups. sort groups;
  order-perm = λ {K} groups. sort-perm groups;
  order-IsDescending = λ {K} groups. sort-IsDescending groups;
  nested_text = text_of;
  to_int = atoi;
}
