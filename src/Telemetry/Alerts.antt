-- ===== src/Telemetry/Alerts.antt =====
-- `DriverAlertHub` of backend/internal/telemetry/alerts.go: alerts to one driver's connections.
use sesfikile.Base.{ℕ, Bool}
use sesfikile.Base.Text.{Text}
use sesfikile.Telemetry.Mailbox.{Subs, members, any_room}
use sesfikile.Telemetry.Mailbox

abbrev pub alert_buffer : ℕ
alert_buffer = 8

pub record AlertMessage : Type 0 where
  pub type : Text
  pub request_id : Text
  pub route_id : Text
  pub stop_id : Text
  pub stop_name : Text
  pub requested_at : Text

abbrev pub DriverAlertHub : Type 0
DriverAlertHub = Subs AlertMessage

unfoldable pub subscribe_driver : (driver pointer : ℕ) → DriverAlertHub → DriverAlertHub
subscribe_driver = Mailbox.subscribe

unfoldable pub unsubscribe_driver : (driver pointer : ℕ) → DriverAlertHub → DriverAlertHub
unsubscribe_driver = Mailbox.unsubscribe

-- The result tells whether some mailbox took the alert.
unfoldable pub send : ℕ → AlertMessage → DriverAlertHub → DriverAlertHub × Bool
send driver_id msg h =
    (Mailbox.deliver alert_buffer driver_id msg h, any_room alert_buffer (members driver_id h))
