-- ===== src/Http/RateLimit/Burst.antt =====
-- How many requests of one address pass in its first minute
-- (ingestion-service/internal/middleware/rate_limiter.go).
use multi_tenant_siem.Base.{
  ℕ, ◌+◌, ◌-◌, ◌≤◌, String, ◌≡◌, refl, ap, ◌∙◌, Bool, true, false, Option, none, some, List, [],
  ◌∷◌, arith, leb, str_eq, eq_iff, if◌then◌else◌, length,
}
use multi_tenant_siem.Detection.Model.{minute}
use multi_tenant_siem.Detection.Store.{get, get-put}
use multi_tenant_siem.Http.RateLimit.{Client, visit, rate_limit}

-- Requests with the times at which they come and their addresses, the newest first.
abbrev pub History : Type 0
History = List (ℕ × String)

pub clients_after : History → List (String × Client)
unfolding rate_limit
clients_after [] = []
clients_after ((t, address) ∷ h) = (rate_limit t address (clients_after h)).0

-- The times of the requests of one address.
unfoldable pub visits : String → History → List ℕ
visits k [] = []
visits k ((t, address) ∷ h) = let rest = visits k h in if str_eq address k then t ∷ rest else rest

entries : List ℕ → Option Client
unfolding visit
entries [] = none
entries (t ∷ ts) = some (visit t (entries ts)).0

entries-round :
    (same : Bool) (k j : String) (t : ℕ) (m : List (String × Client)) (ts : List ℕ)
    → (same ≡ true → j ≡ k)
    → get k m ≡ entries ts
    → (if same then some (visit t (get j m)).0 else get k m) ≡ entries (if same then t ∷ ts else ts)
unfolding entries
entries-round true k j t m ts eq ih =
    ap (λ (o : Option Client). some (visit t o).0) (ap (λ i. get i m) (eq refl) ∙ ih)
entries-round false k j t m ts eq ih = ih

-- The map holds, at each address, what the requests of that address alone make of it.
get-clients_after : (k : String) (h : History) → get k (clients_after h) ≡ entries (visits k h)
unfolding clients_after visits rate_limit
get-clients_after k [] = unfold get entries in refl
get-clients_after k ((t, address) ∷ h) =
    get-put address k (visit t (get address (clients_after h))).0 (clients_after h)
    ∙ entries-round (str_eq address k) k address t (clients_after h) (visits k h)
        (λ same. (eq_iff address k).0 same) (get-clients_after k h)

-- The oldest time of `t` and the times before it.
abbrev pub first : ℕ → List ℕ → ℕ
first t [] = t
first t (u ∷ ts) = first u ts

-- All come at most a minute after the first one.
abbrev pub InMinute : ℕ → List ℕ → Type 0
InMinute start [] = Unit
InMinute start (t ∷ ts) = (t - start ≤ minute) × InMinute start ts

entries_burst :
    (t : ℕ) (ts : List ℕ)
    → InMinute (first t ts) (t ∷ ts)
    → entries (t ∷ ts) ≡ some (record { last_seen = first t ts; requests = length (t ∷ ts) })
unfolding entries visit
entries_burst t [] h = refl
entries_burst t (u ∷ ts) (soon, h) =
    ap (λ (o : Option Client). some (visit t o).0) (entries_burst u ts h) ∙ ground arith

-- While all requests of an address come within a minute of its first one, a request passes exactly
-- if it is one of the first hundred, whatever other addresses send.
pub rate_limit_burst :
    (t : ℕ) (address : String) (h : History)
    → InMinute (first t (visits address h)) (t ∷ visits address h)
    → (rate_limit t address (clients_after h)).1 ≡ leb (length (visits address h) + 1) 100
unfolding rate_limit
rate_limit_burst t address h within =
    ap (λ (o : Option Client). (visit t o).1) (get-clients_after address h)
    ∙ passes t (visits address h) within
  where
    passes :
        (t : ℕ) (ts : List ℕ)
        → InMinute (first t ts) (t ∷ ts)
        → (visit t (entries ts)).1 ≡ leb (length ts + 1) 100
    passes t [] w = unfold entries visit in refl
    passes t (u ∷ ts) (soon, w) =
        ap (λ (o : Option Client). (visit t o).1) (entries_burst u ts w)
        ∙ unfold visit in ground arith
