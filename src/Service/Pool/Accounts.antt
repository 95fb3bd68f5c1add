-- ===== src/Service/Pool/Accounts.antt =====
-- The accounts of a connection of the hub, of the notifications and of the metric
-- (ingestion-service/internal/service/alert_service.go).
use multi_tenant_siem.Base.{
  ℕ, ◌+◌, String, ◌≡◌, refl, Bool, List, [], ◌∷◌, ◌++◌, arith, if◌then◌else◌, append_assoc,
}
use multi_tenant_siem.Detection.Model.{Alert}
use multi_tenant_siem.Service.Hub.{broadcast}
use multi_tenant_siem.Service.Hub.Delivery.{received, count, owed}
use multi_tenant_siem.Service.Alerts.{add_row, tell_hub, count_generated, begin_slack, AlertService}
use multi_tenant_siem.Service.Pool.{Job, tell, meter, notify, Local}
use multi_tenant_siem.Service.Pool.Ledger.{left_of, left_by, Account}

-- How many of a list pass a test.
abbrev pub tally {ℓ} : {A : Type ℓ} → (A → Bool) → List A → ℕ
tally q [] = 0
tally q (a ∷ rest) = (if q a then 1 else 0) + tally q rest

pub tally-append {ℓ} :
    {A : Type ℓ} (q : A → Bool) (xs ys : List A) → tally q (xs ++ ys) ≡ tally q xs + tally q ys
tally-append q [] ys = omega arith
tally-append q (x ∷ xs) ys = omega (arith, tally-append q xs ys)

abbrev label_of : Alert → String × String
label_of a = (a.alert_type, a.severity)

module _ (q : Alert → Bool) where
  abbrev one : Alert → ℕ
  one a = if q a then 1 else 0

  abbrev pub stored_in : AlertService → ℕ
  stored_in s = tally q s.stored

  -- Alerts that are stored and not broadcast yet.
  abbrev pub untold : Job → ℕ
  untold (tell a) = one a
  untold _ = 0

  -- Alerts that are stored and whose notification has not begun.
  abbrev pub unnotified : Job → ℕ
  unnotified (tell a) = one a
  unnotified (meter a) = one a
  unnotified (notify a) = one a
  unnotified _ = 0

  -- Alerts that are stored and not counted yet.
  abbrev pub uncounted : Job → ℕ
  uncounted (tell a) = one a
  uncounted (meter a) = one a
  uncounted _ = 0

-- Broadcasts: what a connection was sent and what waits for it.
unfoldable pub told_account : ℕ → (Alert → Bool) → Account
unfolding add_row tell_hub count_generated begin_slack broadcast
told_account c q = record {
  weight = untold q;
  done = λ s. tally q (owed c s.hub);
  owed = stored_in q;
  idle = λ e. (refl, refl);
  fresh = λ a. (refl, refl);
  forgets = λ seen s. (refl, refl);
  stores = λ a s. omega (arith, tally-append q s.stored (a ∷ []));
  tells = λ a s.
      rw (← append_assoc (received c s.hub.sent) s.hub.batch (a ∷ []))
        (omega (arith, tally-append q (owed c s.hub) (a ∷ [])));
  meters = λ a s. omega arith;
  notifies = λ a s. omega arith;
}

unfoldable pub notified_account : (Alert → Bool) → Account
unfolding add_row tell_hub count_generated begin_slack
notified_account q = record {
  weight = unnotified q;
  done = λ s. tally q s.slack;
  owed = stored_in q;
  idle = λ e. (refl, refl);
  fresh = λ a. (refl, refl);
  forgets = λ seen s. (refl, refl);
  stores = λ a s. omega (arith, tally-append q s.stored (a ∷ []));
  tells = λ a s. omega arith;
  meters = λ a s. omega arith;
  notifies = λ a s. omega (arith, tally-append q s.slack (a ∷ []));
}

-- The metric, by a test of the labels.
unfoldable pub counted_account : (String × String → Bool) → Account
unfolding add_row tell_hub count_generated begin_slack
counted_account t = record {
  weight = uncounted (λ a. t (label_of a));
  done = λ s. tally t s.generated;
  owed = stored_in (λ a. t (label_of a));
  idle = λ e. (refl, refl);
  fresh = λ a. (refl, refl);
  forgets = λ seen s. (refl, refl);
  stores = λ a s. omega (arith, tally-append (λ x. t (label_of x)) s.stored (a ∷ []));
  tells = λ a s. omega arith;
  meters = λ a s. omega (arith, tally-append t s.generated (label_of a ∷ []));
  notifies = λ a s. omega arith;
}

-- The connection stands once in the map of the clients.
unfoldable pub linked_account : ℕ → Account
unfolding add_row tell_hub count_generated begin_slack broadcast
linked_account c = record {
  weight = λ job. 0;
  done = λ s. count c s.hub.clients;
  owed = λ s. 0;
  idle = λ e. (refl, refl);
  fresh = λ a. (refl, refl);
  forgets = λ seen s. (refl, refl);
  stores = λ a s. omega arith;
  tells = λ a s. omega arith;
  meters = λ a s. omega arith;
  notifies = λ a s. omega arith;
}

pub left_by_nothing : (ls : List Local) → left_by (λ job. 0) ls ≡ 0
left_by_nothing [] = refl
left_by_nothing (l ∷ ls) = omega (arith, none_left l.jobs, left_by_nothing ls)
  where
    none_left : (jobs : List Job) → left_of (λ job. 0) jobs ≡ 0
    none_left [] = refl
    none_left (job ∷ rest) = omega (arith, none_left rest)
