-- ===== src/Service/Alerts/Agreement.antt =====
-- What the calls of the alert service leave behind
-- (ingestion-service/internal/service/alert_service.go).
use multi_tenant_siem.Base.{
  ℕ, ◌-◌, ◌<◌, String, ◌≡◌, refl, sym, ap, ◌∙◌, inl, inr, true, false, Option, none, some, List, [],
  ◌∷◌, ◌++◌, arith, Bool-cases, Option-cases, append_assoc,
}
use multi_tenant_siem.Detection.Model.{Alert}
use multi_tenant_siem.Detection.Store.{get-put_self, get, put}
use multi_tenant_siem.Detection.Suppressor.{key_of, window, is_repeat, should_suppress_alert}
use multi_tenant_siem.Service.Hub.{broadcast}
use multi_tenant_siem.Service.Hub.Delivery.{count, owed, received}
use multi_tenant_siem.Service.Alerts.{
  add_row, AlertService, nil, stored_alert, announce, create_alert,
}

abbrev pub labels : List Alert → List (String × String)
labels [] = []
labels (a ∷ rest) = (a.alert_type, a.severity) ∷ labels rest

labels-append : (xs ys : List Alert) → labels (xs ++ ys) ≡ labels xs ++ labels ys
labels-append [] ys = refl
labels-append (a ∷ xs) ys = rw (labels-append xs ys) refl

-- The rows of the database, the notifications, the metric, and what a connection has been sent or
-- waits for, beyond the alerts `before`, tell the same, and it is connected.
abbrev pub Agrees : ℕ → List Alert → AlertService → Type 0
Agrees c before s =
    (s.slack ≡ s.stored)
    × (s.generated ≡ labels s.stored)
    × (owed c s.hub ≡ before ++ s.stored)
    × (count c s.hub.clients ≡ 1)

announce-Agrees :
    (c : ℕ) (before : List Alert) (a : Alert) (s : AlertService)
    → Agrees c before s
    → Agrees c before (announce a (add_row a s))
unfolding announce add_row broadcast
announce-Agrees c before a s (slack, generated, sent, connected) = (
  ap (λ (xs : List Alert). xs ++ a ∷ []) slack,
  ap (λ (xs : List (String × String)). xs ++ (a.alert_type, a.severity) ∷ []) generated
      ∙ sym (labels-append s.stored (a ∷ [])),
  sym (append_assoc (received c s.hub.sent) s.hub.batch (a ∷ []))
      ∙ ap (λ (xs : List Alert). xs ++ a ∷ []) sent
      ∙ append_assoc before s.stored (a ∷ []),
  connected,
)

-- Whether a call suppresses its alert, stores it, or fails to, what the database holds, what was
-- notified, what was counted and what a client that is connected gets keep telling the same.
pub create_alert-Agrees :
    (c : ℕ) (before : List Alert) (now : ℕ) (row : Option (ℕ × ℕ)) (a : Alert) (s : AlertService)
    → Agrees c before s
    → Agrees c before (create_alert now row a s).0
unfolding create_alert
create_alert-Agrees c before now row a s h =
    elim (Bool-cases (should_suppress_alert now a s.suppressor).1) [
      | inl held ↦ rw (held, create_alert) h
      | inr fresh ↦ elim (Option-cases row) [
        | inl lost ↦ rw (fresh, lost, create_alert) h
        | inr (answer, stored) ↦
            rw (fresh, stored, create_alert)
              (announce-Agrees c before (stored_alert a answer)
                (record s { suppressor = (should_suppress_alert now a s.suppressor).0 }) h)
      ]
    ]

-- An alert that is not held back and whose INSERT fails is lost, and so are its repeats: whatever
-- the database would answer, a call within five minutes for the same tenant, type and address
-- stores, sends, counts and notifies nothing, and returns no error.
pub create_alert_lost :
    (now later : ℕ) (row : Option (ℕ × ℕ)) (a b : Alert) (s : AlertService)
    → is_repeat now (get (key_of a) s.suppressor) ≡ false
    → key_of b ≡ key_of a
    → later - now < window
    → create_alert later row b (create_alert now none a s).0
      ≡ (record s { suppressor = put (key_of a) now s.suppressor }, nil)
unfolding create_alert should_suppress_alert
create_alert_lost now later row a b s fresh same soon =
    rw (fresh, same, get-put_self, is_repeat_lem) refl
  where
    is_repeat_lem : is_repeat later (some now) ≡ true
    is_repeat_lem = unfold is_repeat in ground arith
