-- ===== src/Http/RateLimit.antt =====
-- ingestion-service/internal/middleware/rate_limiter.go. `now` is the time that the call reads.
pub mod Burst
use multi_tenant_siem.Base.{
  ℕ, zero, suc, ◌+◌, ◌-◌, ◌≤◌, ◌<◌, String, ◌≡◌, refl, sym, ap, ◌∙◌, ◌≢◌, ◌↔◌, ◌⊎◌, inl, inr, Bool,
  true, false, not, ◌&&◌, ◌||◌, Option, none, some, List, [], ◌∷◌, ◌++◌, arith, ltb, leb, ◌==◌,
  str_eq, eq_iff, eq_refl, if◌then◌else◌, Bool-cases, Option-cases, length, any, keep, All, Memᴰ,
}
use multi_tenant_siem.Detection.Model.{minute}
use multi_tenant_siem.Detection.Store.{get, put}

pub record Client : Type 0 where
  pub last_seen : ℕ
  pub requests : ℕ

-- From an entry, the new entry and whether the request passes.
unfoldable pub visit : ℕ → Option Client → Client × Bool
visit now none = (record { last_seen = now; requests = 1 }, true)
visit now (some c) =
    let c1 =
      if ltb minute (now - c.last_seen) then record c { last_seen = now; requests = 0 } else c in
    let c2 = record c1 { requests = c1.requests + 1 } in (c2, not (ltb 100 c2.requests))

-- `RateLimit`, under the text of `r.RemoteAddr`.
unfoldable pub rate_limit : ℕ → String → List (String × Client) → List (String × Client) × Bool
unfolding visit get put
rate_limit now address clients =
    let (entry, passes) = visit now (get address clients) in (put address entry clients, passes)
