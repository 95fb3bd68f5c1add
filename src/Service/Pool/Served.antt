-- ===== src/Service/Pool/Served.antt =====
-- The workers side by side with the hub and its clients
-- (ingestion-service/internal/service/worker.go, internal/service/alert_service.go,
-- internal/websocket/hub.go).
use multi_tenant_siem.Base.{
  ℕ, ◌+◌, String, ◌≡◌, ◌∙◌, ◌≢◌, Bool, true, not, List, [], ◌∷◌, arith, ◌==◌,
}
use multi_tenant_siem.Detection.Model.{Alert}
use multi_tenant_siem.Service.Hub.{Hub, connect, disconnect, flush_batch}
use multi_tenant_siem.Service.Hub.Delivery.{count, count-connect, count-keep, owed, owed-tick}
use multi_tenant_siem.Service.Pool.{Act, Pool, step}
use multi_tenant_siem.Service.Pool.Ledger.{left_by, step-Balanced}
use multi_tenant_siem.Service.Pool.Accounts.{
  tally, untold, unnotified, uncounted, told_account, notified_account, counted_account,
  linked_account, left_by_nothing,
}

-- What happens to the workers and the hub.
pub data Happening : Type 0 where
  works : ℕ → Act → Happening
  join leave : ℕ → Happening
  send : (ℕ → Bool) → Happening

abbrev on_hub : (Hub → Hub) → Pool → Pool
on_hub f p = record p {
  shared = record p.shared { alerts = record p.shared.alerts { hub = f p.shared.alerts.hub } };
}

unfoldable pub happen : Happening → Pool → Pool
unfolding step connect disconnect flush_batch
happen (works i a) p = step i a p
happen (join c) p = on_hub (connect c) p
happen (leave c) p = on_hub (disconnect c) p
happen (send ok) p = on_hub (flush_batch ok) p

unfoldable pub serve_all : List Happening → Pool → Pool
unfolding happen
serve_all [] p = p
serve_all (h ∷ hs) p = serve_all hs (happen h p)

-- The connection does not leave, and no write to it fails.
abbrev pub Remains : ℕ → List Happening → Type 0
Remains c [] = Unit
Remains c (works i a ∷ hs) = Remains c hs
Remains c (join d ∷ hs) = Remains c hs
Remains c (leave d ∷ hs) = (d ≢ c) × Remains c hs
Remains c (send ok ∷ hs) = (ok c ≡ true) × Remains c hs

module _ (c : ℕ) (q : Alert → Bool) (t : String × String → Bool) (before : ℕ) where
  -- The connection is there; of the alerts that pass a test as many rows are stored as it was sent
  -- beyond those of before, or wait for it, or are about to be broadcast; as many as have begun a
  -- notification or are about to; and of the labels that pass one, as many as were counted or are
  -- about to be.
  pub record IsServed (p : Pool) : Type 0 where
    pub linked : count c p.shared.alerts.hub.clients ≡ 1
    pub told :
        tally q (owed c p.shared.alerts.hub) + left_by (untold q) p.workers
        ≡ before + tally q p.shared.alerts.stored
    pub notified :
        tally q p.shared.alerts.slack + left_by (unnotified q) p.workers
        ≡ tally q p.shared.alerts.stored
    pub counted :
        tally t p.shared.alerts.generated
          + left_by (uncounted (λ a. t (a.alert_type, a.severity))) p.workers
        ≡ tally (λ (a : Alert). t (a.alert_type, a.severity)) p.shared.alerts.stored

  step-IsServed : (i : ℕ) (a : Act) (p : Pool) → IsServed p → IsServed (step i a p)
  unfolding told_account notified_account counted_account linked_account
  step-IsServed i a p h = record {
    linked = omega (
      arith,
      step-Balanced (linked_account c) 1 i a p (omega (arith, left_by_nothing p.workers, h.linked)),
      left_by_nothing (step i a p).workers,
    );
    told = step-Balanced (told_account c q) before i a p h.told;
    notified =
        omega (arith, step-Balanced (notified_account q) 0 i a p (omega (arith, h.notified)));
    counted = omega (arith, step-Balanced (counted_account t) 0 i a p (omega (arith, h.counted)));
  }

  happen-IsServed :
      (x : Happening) (p : Pool) → Remains c (x ∷ []) → IsServed p → IsServed (happen x p)
  unfolding happen connect disconnect
  happen-IsServed (works i a) p r h = step-IsServed i a p h
  happen-IsServed (join d) p r h = record {
    linked = count-connect c d p.shared.alerts.hub h.linked;
    told = h.told;
    notified = h.notified;
    counted = h.counted;
  }
  happen-IsServed (leave d) p (other, r) h = record {
    linked = count-keep c (λ e. not (e == d)) p.shared.alerts.hub.clients (ground arith) ∙ h.linked;
    told = h.told;
    notified = h.notified;
    counted = h.counted;
  }
  happen-IsServed (send ok) p (reach, r) h =
      let (same, there) = owed-tick c ok p.shared.alerts.hub reach h.linked in
      record { linked = there; told = rw same h.told; notified = h.notified; counted = h.counted }

  -- From events to clients, with several workers: their steps, ticks, failures of the database, flushes
  -- of the hub and other connections' coming and going may be in any order, and between the INSERT, the
  -- broadcast, the metric and the start of the notification of one alert the other workers may run. If
  -- the counts agree, for a connection that is not removed and to which no write fails, they keep
  -- agreeing: with `before` = 0 and any test, each alert whose row the database took is sent to it
  -- once, is notified once and counted once, or is on its way to be, and no other alert is. (Of the
  -- order nothing is said: two workers may broadcast in another order than they store.)
  pub serve_all-IsServed :
      (hs : List Happening) (p : Pool) → Remains c hs → IsServed p → IsServed (serve_all hs p)
  unfolding serve_all
  serve_all-IsServed [] p r h = h
  serve_all-IsServed (works i a ∷ hs) p r h =
      serve_all-IsServed hs (happen (works i a) p) r (happen-IsServed (works i a) p tt h)
  serve_all-IsServed (join d ∷ hs) p r h =
      serve_all-IsServed hs (happen (join d) p) r (happen-IsServed (join d) p tt h)
  serve_all-IsServed (leave d ∷ hs) p (other, r) h =
      serve_all-IsServed hs (happen (leave d) p) r (happen-IsServed (leave d) p (other, tt) h)
  serve_all-IsServed (send ok ∷ hs) p (reach, r) h =
      serve_all-IsServed hs (happen (send ok) p) r (happen-IsServed (send ok) p (reach, tt) h)
