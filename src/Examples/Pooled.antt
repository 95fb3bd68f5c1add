-- ===== src/Examples/Pooled.antt =====
-- Two workers on one hub, and a page.
use multi_tenant_siem.Base.{◌≡◌, refl, true, List, [], ◌∷◌, any, Memᴰ, All}
use multi_tenant_siem.Detection.Model.{Alert}
use multi_tenant_siem.Service.Json.{alert_json}
use multi_tenant_siem.Service.Pool.{Act}
use multi_tenant_siem.Service.Pool.Served
use multi_tenant_siem.Service.Pool.Served.{serve_all, Remains}
use multi_tenant_siem.Dashboard.State.{Browser}
use multi_tenant_siem.Dashboard.Feed.{same_alert, current_tenant_id}
use multi_tenant_siem.Dashboard.Session.{Input, mount}
use multi_tenant_siem.Dashboard.Session.Tenants.{play}
use multi_tenant_siem.Live.Page.{packets}
use multi_tenant_siem.Live.Shown.{packet_of, packets_to}
use multi_tenant_siem.Live.Pooled.{IsIdle, pool_shown}
use multi_tenant_siem.Examples.Detectors.{raised, failure}
use multi_tenant_siem.Examples.Requests.{rfc3339, browser}
use multi_tenant_siem.Examples.Live.{ws_url}
use multi_tenant_siem.Examples.Workers.{watched, found, all_there}

-- The alert of the first worker is stored, broadcast, counted and notified while the other takes an event.
abbrev moves : List Served.Happening
moves =
    Served.works 0 (Act.take failure true)
    ∷ Served.works 0 (Act.tick true)
    ∷ Served.works 0 (Act.go found)
    ∷ Served.works 0 (Act.go found)
    ∷ Served.works 0 (Act.go found)
    ∷ Served.works 1 (Act.take failure true)
    ∷ Served.works 0 (Act.go found)
    ∷ Served.works 0 (Act.go found)
    ∷ Served.works 0 (Act.go found)
    ∷ Served.works 0 (Act.go found)
    ∷ Served.send all_there
    ∷ []

abbrev its_alert : Alert
its_alert = record raised { id = 1; created_at = 7 }

abbrev inputs : List (Browser × Input)
inputs = (browser, Input.opened) ∷ (browser, Input.packet (packet_of rfc3339 (its_alert ∷ []))) ∷ []

serve_all-IsIdle : All IsIdle (serve_all moves watched).workers
unfolding serve_all
serve_all-IsIdle = (refl, (refl, tt))

nothing_waits : (serve_all moves watched).shared.alerts.hub.batch ≡ []
unfolding serve_all
nothing_waits = refl

its_packet : packets inputs ≡ packets_to rfc3339 7 (serve_all moves watched).shared.alerts.hub.sent
unfolding serve_all
its_packet = refl

was_stored : Memᴰ its_alert (serve_all moves watched).shared.alerts.stored
unfolding serve_all
was_stored = Memᴰ.head refl

of_tenant : its_alert.tenant_id ≡ current_tenant_id (mount browser ws_url).socket_key
unfolding mount current_tenant_id
of_tenant = refl

pool_shown_example :
    any
      (same_alert (alert_json rfc3339 its_alert))
      (play ws_url inputs (mount browser ws_url)).page.alerts
    ≡ true
pool_shown_example =
    pool_shown rfc3339 7 0 moves watched ws_url inputs (mount browser ws_url) its_alert (refl, tt)
      (record { linked = refl; told = refl; notified = refl; counted = refl }) serve_all-IsIdle
      nothing_waits its_packet (tt, (tt, tt)) was_stored of_tenant
