-- ===== src/Telemetry/Hub.antt =====
-- `Hub` of backend/internal/telemetry/hub.go: events of a route to its commuters.
use sesfikile.Base.{ℕ}
use sesfikile.Base.Int.{ℤ}
use sesfikile.Base.Text.{Text}
use sesfikile.Telemetry.Store.{VehicleState}
use sesfikile.Telemetry.Mailbox.{Subs}
use sesfikile.Telemetry.Mailbox

abbrev pub event_buffer : ℕ
event_buffer = 32

-- `String` of a uuid, and `UTC().Format` of a time under the source's layout.
pub record Render : Type 0 where
  pub show_uuid : ℕ → Text
  pub format_time : ℕ → Text

-- `VehicleView` of view.go.
pub record VehicleView : Type 0 where
  pub vehicle_id : Text
  pub route_id : Text
  pub lat : ℕ
  pub lng : ℕ
  pub seats_total : ℤ
  pub seats_available : ℤ
  pub last_updated : Text

unfoldable pub to_view : Render → VehicleState → VehicleView
to_view render s = record {
  vehicle_id = render.show_uuid s.vehicle_id;
  route_id = render.show_uuid s.route_id;
  lat = s.lat;
  lng = s.lng;
  seats_total = s.seats_total;
  seats_available = s.seats_available;
  last_updated = render.format_time s.last_updated;
}

pub data Event : Type 0 where
  update : VehicleView → Event
  offline : ℕ → Event

abbrev pub Hub : Type 0
Hub = Subs Event

unfoldable pub subscribe : (route pointer : ℕ) → Hub → Hub
subscribe = Mailbox.subscribe

unfoldable pub unsubscribe : (route pointer : ℕ) → Hub → Hub
unsubscribe = Mailbox.unsubscribe

unfoldable pub publish : ℕ → Event → Hub → Hub
publish route_id evt h = Mailbox.deliver event_buffer route_id evt h
