-- ===== src/Dashboard/Timeline/Order.antt =====
-- The rows of the timeline of frontend/src/App.jsx stand in the order of their hours, each hour
-- once.
use Prim.Native.Nat.{Ordering, compare as compare_ℕ}
use Prim.Native.String
use Prim.Native.String.compare
use multi_tenant_siem.Base.{String, ◌≡◌, List, [], ◌∷◌}
use multi_tenant_siem.Dashboard.Timeline.{Hour}

abbrev pub IsBefore : String → String → Type 0
IsBefore s t = String.compare s t ≡ Ordering.lt

-- The first text of the list, if there is one, comes after `k`.
abbrev Above : String → List String → Type 0
Above k [] = Unit
Above k (j ∷ js) = IsBefore k j

-- Each text comes before the next one.
abbrev pub IsIncreasing : List String → Type 0
IsIncreasing [] = Unit
IsIncreasing (k ∷ ks) = Above k ks × IsIncreasing ks

abbrev pub times : List Hour → List String
times [] = []
times (r ∷ rest) = r.time ∷ times rest
