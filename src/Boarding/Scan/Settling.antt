-- ===== src/Boarding/Scan/Settling.antt =====
-- The charge of a scan and the seat that it takes (backend/internal/boarding/handlers.go).
use sesfikile.Base.{ℕ, true, false, ◌≡◌, refl, ap, Option, none, some, inr}
use sesfikile.Base.Int.{pos, negsuc, ◌+ℤ◌}
use sesfikile.Base.Word.{i64}
use sesfikile.Base.Dict.{lookup, insert}
use sesfikile.Boarding.Limiter.{Attempts}
use sesfikile.Boarding.Scan.{
  Server, Setup, Times, ScanPassRequest, charge_status, take_seat, settle,
}
use sesfikile.Wallet.Models.{LedgerTransaction}
use sesfikile.Wallet.Split.{FareSplit}
use sesfikile.Wallet.Repo.{Charged}
use sesfikile.Telemetry.Store.{VehicleState, VehicleStateStore, clamp, get, adjust_seats}
use sesfikile.Telemetry.Store.Invariant.{clamp-IsKept}
use sesfikile.Database.Session.{
  Env, Session, Error, insufficient_funds, no_active_driver, Result, ok, err,
}
use sesfikile.Boarding.Scan.Promise.{Checked, Riding, charge_of, ChargeStatus, Ended}

adjusted :
    (v now : ℕ) (x : VehicleState) (s : VehicleStateStore)
    → get v s ≡ some x
    → (adjust_seats v (negsuc 0) now s).0
      ≡ insert v
          (record x {
            seats_available = clamp (i64 (x.seats_available +ℤ negsuc 0)) (pos 0) x.seats_total;
            last_updated = now;
          })
          s
unfolding adjust_seats get
adjusted v now x s h =
    let go : Option VehicleState → VehicleStateStore × Option VehicleState = λ o. elim o [
      | none ↦ (s, none)
      | some y ↦
          let z : VehicleState = record y {
            seats_available = clamp (i64 (y.seats_available +ℤ negsuc 0)) (pos 0) y.seats_total;
            last_updated = now;
          } in
          (insert v z s, some z)
    ] in
    ap (λ o. (go o).0) h

charge_status-ChargeStatus : (e : Error) → ChargeStatus e (charge_status e)
charge_status-ChargeStatus insufficient_funds = refl
charge_status-ChargeStatus no_active_driver = refl
charge_status-ChargeStatus e = refl

module _ ⦃env : Env⦄ (setup : Setup) (times : Times) (user : ℕ) (req : ScanPassRequest)
    (st : Server) where
  -- The server after the reads: only the attempts and the session may differ.
  abbrev pub after : Attempts → Session → Server
  after a s = record st { attempts = a; session = s }

  module _ (c : Checked setup times user req st) (r : Riding setup times user req st c)
      (a : Attempts) where
    take_seat-Ended :
        (txn : LedgerTransaction) (split : FareSplit) (s : Session)
        → charge_of setup times user req st c r ≡ (ok (txn, split, false), s)
        → Ended setup times user req st (
            take_seat setup.render times c.payload r.driving.assignment.vehicle_id r.state txn split
              (after a s))
    unfolding take_seat adjust_seats get
    take_seat-Ended txn split s h =
        let t : lookup r.driving.assignment.vehicle_id st.telemetry ≡ some r.state = r.tracked in
        rw (take_seat, adjust_seats, t)
          (record {
            checked = c;
            ride = r;
            txn = txn;
            split = split;
            replayed = false;
            seats = clamp (i64 (r.state.seats_available +ℤ negsuc 0)) (pos 0) r.state.seats_total;
            charged = h;
            reported = refl;
            seated = (
              refl,
              record {
                now = record r.state {
                  seats_available =
                      clamp (i64 (r.state.seats_available +ℤ negsuc 0)) (pos 0) r.state.seats_total;
                  last_updated = times.adjust_at;
                };
                same = refl;
                fewer =
                    clamp-IsKept (i64 (r.state.seats_available +ℤ negsuc 0)) r.state.seats_total;
                stored =
                    adjusted r.driving.assignment.vehicle_id times.adjust_at r.state st.telemetry
                      r.tracked;
                told = refl;
              },
            );
          })

    pub settle-Ended :
        (res : Result Charged × Session) (s : Session)
        → charge_of setup times user req st c r ≡ res
        → Ended setup times user req st (
            settle setup.render times c.payload r.driving.assignment.vehicle_id r.state res
              (after a s))
    settle-Ended (err e, s') s h = (refl, refl, inr (c, (r, e, h, charge_status-ChargeStatus e)))
    settle-Ended (ok (txn, split, true), s') s h = record {
      checked = c;
      ride = r;
      txn = txn;
      split = split;
      replayed = true;
      seats = r.state.seats_available;
      charged = h;
      reported = refl;
      seated = (refl, refl, refl, refl);
    }
    settle-Ended (ok (txn, split, false), s') s h = take_seat-Ended txn split s' h
