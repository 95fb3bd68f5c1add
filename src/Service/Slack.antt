-- ===== src/Service/Slack.antt =====
-- `sendSlackNotification` of ingestion-service/internal/service/alert_service.go. `webhook_url` is
-- SLACK_WEBHOOK_URL, empty if it is not set; what Slack answers changes nothing.
use multi_tenant_siem.Base.{
  ℕ, String, ◌≡◌, ap, ◌∙◌, Option, none, some, List, [], ◌∷◌, arith, str_eq, if◌then◌else◌, map,
  concat,
}
use multi_tenant_siem.Js.{Value, obj, field, end, str}
use multi_tenant_siem.Detection.Model.{Alert}
use multi_tenant_siem.Service.Alerts.Agreement.{Agrees}
use multi_tenant_siem.Service.Worker.{Moment, Worker}
use multi_tenant_siem.Service.Worker.System.{Happening, serve, Remains, serve-Agrees}

abbrev pub slack_text : Alert → String
slack_text alert = concat (
    "🚨 *SentinelX Security Alert* 🚨\n*Tenant*: `" ∷ alert.tenant_id ∷ "`\n*Type*: `"
    ∷ alert.alert_type ∷ "`\n*Severity*: `" ∷ alert.severity ∷ "`\n*Source IP*: `" ∷ alert.source_ip
    ∷ "`\n*Message*: " ∷ alert.message ∷ [])

-- The address and the body of the POST, if there is one.
unfoldable pub send_slack_notification : String → Alert → Option (String × Value)
send_slack_notification webhook_url alert =
    if str_eq webhook_url ""
    then none
    else some (webhook_url, obj (field "text" (str (slack_text alert)) end))

-- The posts for the notifications that were begun.
abbrev pub posts : String → List Alert → List (String × Value)
posts webhook_url [] = []
posts webhook_url (a ∷ rest) = elim (send_slack_notification webhook_url a) [
  | none ↦ posts webhook_url rest
  | some post ↦ post ∷ posts webhook_url rest
]

abbrev pub bodies : String → List Alert → List (String × Value)
bodies webhook_url = map (λ a. (webhook_url, obj (field "text" (str (slack_text a)) end)))

posts_lem :
    (webhook_url : String) (alerts : List Alert)
    → posts webhook_url alerts ≡ (if str_eq webhook_url "" then [] else bodies webhook_url alerts)
unfolding send_slack_notification
posts_lem url [] = ground arith
posts_lem url (a ∷ rest) = ground (arith, posts_lem url rest)

-- In every run of one worker with the hub, a message to Slack is begun for each alert whose row the
-- database took, in their order, and none at all if no webhook is set. (The requests run on their own.)
pub posts-stored :
    (webhook_url : String) (c : ℕ) (before : List Alert) (m : ℕ → Moment) (hs : List Happening)
    (w : Worker)
    → Remains c hs
    → Agrees c before w.alerts
    → posts webhook_url (serve m hs w).alerts.slack
      ≡ (if str_eq webhook_url "" then [] else bodies webhook_url (serve m hs w).alerts.stored)
posts-stored webhook_url c before m hs w remains agrees =
    ap (posts webhook_url) (serve-Agrees c before m hs w remains agrees).0
    ∙ posts_lem webhook_url (serve m hs w).alerts.stored
