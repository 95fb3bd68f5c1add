-- ===== src/Dashboard/Feed/Merge.antt =====
-- What the merge of a packet into the list of alerts does (`setAlerts` in `onmessage` of
-- frontend/src/App.jsx).
use multi_tenant_siem.Base.{
  String, ◌≡◌, refl, ap, inl, inr, Bool, true, false, not, List, [], ◌∷◌, ◌++◌, arith, Bool-cases,
  any, keep, All, Memᴰ, All-of_mem, All-append, keep_none, any-append, mem-keep_inv, All-mem,
  any_of_mem, mem-keep,
}
use multi_tenant_siem.Js.{Value, truthy, member, IsPrimitive, strict_eq_self}
use multi_tenant_siem.Dashboard.Feed.{same_alert, new_alerts, merge, incoming_alerts, belongs_to}

-- An alert whose `id` and `created_at` are numbers or texts, as the API sends them.
abbrev pub HasKey : Value → Type 0
HasKey v = (truthy v ≡ true) × IsPrimitive (member "id" v) × IsPrimitive (member "created_at" v)

same_alert_self : (v : Value) → HasKey v → same_alert v v ≡ true
unfolding same_alert
same_alert_self v (t, i, c) = rw (t, strict_eq_self _ i, strict_eq_self _ c)

-- The merged list is the new alerts in front of the list that was there.
pub merge-append :
    (tenant : String) (packet : Value) (current : List Value)
    → merge tenant packet current ≡ new_alerts tenant packet current ++ current
unfolding merge
merge-append tenant packet current = ground arith

module _ (tenant : String) (packet : Value) (current : List Value) where
  -- Every alert of the packet that is the tenant's, and whose id and time are no arrays or objects,
  -- is on the page after the merge.
  pub merge_complete :
      (x : Value)
      → Memᴰ x (incoming_alerts packet)
      → belongs_to tenant x ≡ true
      → HasKey x
      → any (same_alert x) (merge tenant packet current) ≡ true
  unfolding new_alerts
  merge_complete x m mine key = elim (Bool-cases (any (same_alert x) current)) [
    | inl known ↦ rw (merge-append, any-append, known) (ground arith)
    | inr unknown ↦
        rw (merge-append, any-append)
          (rw (
            any_of_mem (same_alert x) (new_alerts tenant packet current)
              (mem-keep (λ y. not (any (same_alert y) current)) _
                (mem-keep (belongs_to tenant) _ m mine) (rw unknown))
              (same_alert_self x key)))
  ]

  -- Each new alert comes from the packet, is the tenant's, and was not on the page.
  pub new_alerts_sound :
      (x : Value)
      → Memᴰ x (new_alerts tenant packet current)
      → Memᴰ x (incoming_alerts packet)
        × (belongs_to tenant x ≡ true)
        × (any (same_alert x) current ≡ false)
  unfolding new_alerts
  new_alerts_sound x m =
      let (m', unknown) = mem-keep_inv (λ y. not (any (same_alert y) current)) _ m in
      let (m'', mine) = mem-keep_inv (belongs_to tenant) _ m' in (m'', mine, ground arith)

  -- Merging a packet a second time changes nothing, if its alerts have ids and times that are no
  -- arrays or objects.
  pub merge_idempotent :
      All HasKey (incoming_alerts packet)
      → merge tenant packet (merge tenant packet current) ≡ merge tenant packet current
  unfolding new_alerts
  merge_idempotent keys = rw (merge-append tenant packet (merge tenant packet current)) (
      ap (λ (fresh : List Value). fresh ++ merge tenant packet current)
        (keep_none _ _ (
          All-of_mem _ _ λ x m.
            let (m', mine) = mem-keep_inv (belongs_to tenant) _ m in
            ap not (merge_complete x m' mine (All-mem HasKey _ keys m')))))

  -- The alerts on the page that are the active tenant's stay so: an alert of another tenant in the
  -- packet does not reach the page.
  pub merge-belongs_to :
      All (λ x. belongs_to tenant x ≡ true) current
      → All (λ x. belongs_to tenant x ≡ true) (merge tenant packet current)
  merge-belongs_to mine = rw merge-append (
      All-append _ (new_alerts tenant packet current) current
        (All-of_mem _ _ λ x m. (new_alerts_sound x m).1) mine)

-- No alert of the list is the same as one behind it.
abbrev pub IsDistinct : List Value → Type 0
IsDistinct [] = Unit
IsDistinct (x ∷ xs) = (any (same_alert x) xs ≡ false) × IsDistinct xs

any-keep-false :
    (r q : Value → Bool) (xs : List Value) → any r xs ≡ false → any r (keep q xs) ≡ false
any-keep-false r q [] h = refl
any-keep-false r q (x ∷ xs) h = ground (arith, any-keep-false r q xs)

IsDistinct-keep : (q : Value → Bool) (xs : List Value) → IsDistinct xs → IsDistinct (keep q xs)
IsDistinct-keep q [] h = tt
IsDistinct-keep q (x ∷ xs) (p, h) = elim (Bool-cases (q x)) [
  | inl kept ↦ rw kept (any-keep-false (same_alert x) q xs p, IsDistinct-keep q xs h)
  | inr dropped ↦ rw dropped (IsDistinct-keep q xs h)
]

IsDistinct-append :
    (xs ys : List Value)
    → IsDistinct xs
    → IsDistinct ys
    → All (λ x. any (same_alert x) ys ≡ false) xs
    → IsDistinct (xs ++ ys)
IsDistinct-append [] ys hx hy h = hy
IsDistinct-append (x ∷ xs) ys (p, hx) hy (q, h) =
    (rw (any-append, p, q), IsDistinct-append xs ys hx hy h)

-- If no alert stands twice on the page, and none twice in the packet, none stands twice after the
-- merge: so the keys of the rendered rows stay distinct.
pub merge-IsDistinct :
    (tenant : String) (packet : Value) (current : List Value)
    → IsDistinct (incoming_alerts packet)
    → IsDistinct current
    → IsDistinct (merge tenant packet current)
unfolding new_alerts
merge-IsDistinct tenant packet current hp hc = rw merge-append (
    IsDistinct-append (new_alerts tenant packet current) current
      (IsDistinct-keep _ _ (IsDistinct-keep _ _ hp)) hc
      (All-of_mem _ _ λ x m. (new_alerts_sound tenant packet current x m).2))
