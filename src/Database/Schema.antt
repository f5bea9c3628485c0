-- ===== src/Database/Schema.antt =====
-- The tables of backend/migrations that the modelled packages read and write.
use sesfikile.Base.{List}
use sesfikile.Identity.Models.{User, Driver, Vehicle, VehicleAssignment}
use sesfikile.Routing.Models.{Stop, Route, RouteLeg, RouteGeometry}
use sesfikile.Wallet.Models.{Account, LedgerTransaction, LedgerPosting}
use sesfikile.Fuel.Models.{VehicleQuota, Authorization}
use sesfikile.Boarding.Models.{IssuedPass}

pub record Db : Type 0 where
  pub users : List User
  pub drivers : List Driver
  pub vehicles : List Vehicle
  pub vehicle_assignments : List VehicleAssignment
  pub accounts : List Account
  pub ledger_transactions : List LedgerTransaction
  pub ledger_postings : List LedgerPosting
  pub vehicle_fuel_quotas : List VehicleQuota
  pub fuel_authorizations : List Authorization
  pub boarding_pass_codes : List IssuedPass
  pub stops : List Stop
  pub routes : List Route
  pub route_legs : List RouteLeg
  pub route_geometries : List RouteGeometry
