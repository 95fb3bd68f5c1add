-- ===== src/Live/Data.antt =====
-- The other data of the page (frontend/src/App.jsx), if it comes from the analytics of
-- ingestion-service.
pub mod Keeps
use multi_tenant_siem.Base.{
  ℕ, String, ◌≡◌, refl, ap, ◌⊎◌, inl, inr, true, Option, none, some, List, [], ◌∷◌, arith,
  Bool-cases, All, map,
}
use mathlib.Core.Path.{subst}
use multi_tenant_siem.Js.{Value, or_else, null, str, arr, array, elements, truthy}
use multi_tenant_siem.Dashboard.State.{Dashboard, Browser, no_traffic}
use multi_tenant_siem.Dashboard.Fetch.{
  Reply, unreachable, response, parsed, garbled, is_ok, ok_body, array_or_member, Stage, alerts,
  traffic, status_codes, top_paths, attackers, Captured, resume,
}
use multi_tenant_siem.Http.Analytics.{TrafficAnalytics, TopPath, Attacker}
use multi_tenant_siem.Http.Analytics.Endpoints.{
  reply_of, list_json, traffic_json, top_path_json, attacker_json,
}
use multi_tenant_siem.Http.Alerts.Honest.{elements-array}

-- A successful answer with a body brings a value with the property.
abbrev pub Gives : (Value → Type 0) → Reply → Type 0
Gives P r = (v : Value) → ok_body r ≡ some v → P v

pub reply_of-Gives :
    {R : Type 0} (P : Value → Type 0) (not_json : String) (json : R → Value) (o : Option R)
    → ((x : R) → P (json x))
    → Gives P (reply_of not_json json o)
unfolding ok_body
reply_of-Gives P not_json json none h v e = cc
reply_of-Gives P not_json json (some x) h v e = let same : json x ≡ v = cc in subst P same (h x)

abbrev pub IsTraffic : Value → Type 0
IsTraffic v = (t : TrafficAnalytics) × (v ≡ traffic_json t)

abbrev pub IsTopPath : Value → Type 0
IsTopPath v = (p : TopPath) × (v ≡ top_path_json p)

-- The JSON of a list of paths.
abbrev pub IsPaths : Value → Type 0
IsPaths v = (ps : List TopPath) × (v ≡ list_json top_path_json ps)

abbrev pub IsAttackers : (ℕ → String) → Value → Type 0
IsAttackers time_text v = (rows : List Attacker) × (v ≡ list_json (attacker_json time_text) rows)

-- No address, or a text.
abbrev pub IsAddress : Value → Type 0
IsAddress v = (v ≡ null) ⊎ ((ip : String) × (v ≡ str ip))

-- Two pages with the same data.
pub record SameData (d d' : Dashboard) : Type 0 where
  pub traffic : d'.traffic_analytics ≡ d.traffic_analytics
  pub paths : d'.top_paths ≡ d.top_paths
  pub attackers : d'.attackers ≡ d.attackers
  pub selected : d'.selected_attacker_ip ≡ d.selected_attacker_ip

module _ (time_text : ℕ → String) where
  -- The data of the page besides the alerts.
  pub record IsData (d : Dashboard) : Type 0 where
    pub traffic : IsTraffic d.traffic_analytics
    pub paths : All IsTopPath d.top_paths
    pub attackers : IsAttackers time_text d.attackers
    pub selected : IsAddress d.selected_attacker_ip

  pub IsData-same : (d d' : Dashboard) → SameData d d' → IsData d → IsData d'
  IsData-same d d' same h = record {
    traffic = rw same.traffic h.traffic;
    paths = rw same.paths h.paths;
    attackers = rw same.attackers h.attackers;
    selected = rw same.selected h.selected;
  }

  -- An answer that brings data of the kind that its request asks for.
  abbrev pub IsRightAt : Stage → Reply → Type 0
  IsRightAt traffic r = Gives IsTraffic r
  IsRightAt top_paths r = Gives IsPaths r
  IsRightAt attackers r = Gives (IsAttackers time_text) r
  IsRightAt _ r = Unit

  pub or_else-IsTraffic : (v w : Value) → IsTraffic v → IsTraffic (or_else v w)
  or_else-IsTraffic v w (t, e) = (t, rw e refl)

  pub or_else-IsAttackers :
      (v w : Value) → IsAttackers time_text v → IsAttackers time_text (or_else v w)
  or_else-IsAttackers v w (rows, e) = (rows, rw e refl)

  paths-IsTopPath : (ps : List TopPath) → All IsTopPath (map top_path_json ps)
  paths-IsTopPath [] = tt
  paths-IsTopPath (p ∷ ps) = ((p, refl), paths-IsTopPath ps)

  array_or_member-IsPaths : (v : Value) → IsPaths v → All IsTopPath (array_or_member "paths" v)
  unfolding array_or_member
  array_or_member-IsPaths v (ps, e) = rw e (rw elements-array (paths-IsTopPath ps))

  array_of-IsAttackers :
      (a : Attacker) (rows : List Attacker)
      → IsAttackers time_text (
          arr (
            array
              (attacker_json time_text a ∷ elements (array (map (attacker_json time_text) rows)))))
  array_of-IsAttackers a rows = (
    a ∷ rows,
    ap (λ vs. arr (array (attacker_json time_text a ∷ vs)))
        (elements-array (map (attacker_json time_text) rows)),
  )

  -- What the list of attackers does to the selected address: nothing, or the first attacker's.
  resume-IsData_attackers :
      (b : Browser) (c : Captured) (status : ℕ) (rows : List Attacker) (d : Dashboard)
      → is_ok status ≡ true
      → IsData d
      → IsData
          (resume b c attackers
            (response status (parsed (list_json (attacker_json time_text) rows)))
            d).0
  unfolding resume
  resume-IsData_attackers b c status [] d good h =
      rw (good, resume)
        (record {
          traffic = h.traffic;
          paths = h.paths;
          attackers = ([], refl);
          selected = h.selected;
        })
  resume-IsData_attackers b c status (a ∷ rows) d good h =
      elim (Bool-cases (truthy c.selected_attacker_ip)) [
        | inl one ↦
            rw (good, resume)
              (rw one (record {
                traffic = h.traffic;
                paths = h.paths;
                attackers = array_of-IsAttackers a rows;
                selected = h.selected;
              }))
        | inr nobody ↦
            rw (good, resume)
              (rw nobody (record {
                traffic = h.traffic;
                paths = h.paths;
                attackers = array_of-IsAttackers a rows;
                selected = inr (a.ip, refl);
              }))
      ]

  pub resume-IsData :
      (b : Browser) (c : Captured) (stage : Stage) (r : Reply) (d : Dashboard)
      → IsRightAt stage r
      → IsData d
      → IsData (resume b c stage r d).0
  unfolding resume ok_body
  resume-IsData b c alerts r d right h = IsData-same d _ (ground arith) h
  resume-IsData b c status_codes r d right h = IsData-same d _ (ground arith) h
  resume-IsData b c stage (unreachable m) d right h = IsData-same d _ (ground arith) h
  resume-IsData b c stage (response status (garbled m)) d right h = IsData-same d _ (ground arith) h
  resume-IsData b c traffic (response status (parsed v)) d right h =
      elim (Bool-cases (is_ok status)) [
        | inr bad ↦
            rw (bad, resume)
              (IsData-same d _
                (record { traffic = refl; paths = refl; attackers = refl; selected = refl }) h)
        | inl good ↦
            rw (good, resume)
              (record {
                traffic = or_else-IsTraffic v no_traffic (right v (rw (good, ok_body) refl));
                paths = h.paths;
                attackers = h.attackers;
                selected = h.selected;
              })
      ]
  resume-IsData b c top_paths (response status (parsed v)) d right h =
      elim (Bool-cases (is_ok status)) [
        | inr bad ↦
            rw (bad, resume)
              (IsData-same d _
                (record { traffic = refl; paths = refl; attackers = refl; selected = refl }) h)
        | inl good ↦
            rw (good, resume)
              (record {
                traffic = h.traffic;
                paths = array_or_member-IsPaths v (right v (rw (good, ok_body) refl));
                attackers = h.attackers;
                selected = h.selected;
              })
      ]
  resume-IsData b c attackers (response status (parsed v)) d right h =
      elim (Bool-cases (is_ok status)) [
        | inr bad ↦
            rw (bad, resume)
              (IsData-same d _
                (record { traffic = refl; paths = refl; attackers = refl; selected = refl }) h)
        | inl good ↦
            let (rows, e) = right v (rw (good, ok_body) refl) in
            rw e (resume-IsData_attackers b c status rows d good h)
      ]
