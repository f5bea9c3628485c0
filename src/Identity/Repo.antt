-- ===== src/Identity/Repo.antt =====
-- backend/internal/identity/repo.go: users and their profiles.
use sesfikile.Base.{
  ℕ, Bool, true, false, not, Option, none, some, List, [], ◌∷◌, ◌++◌, any, filter, find?, ◌==◌,
  ◌&&◌, ◌||◌, if◌then◌else◌,
}
use sesfikile.Base.Text.{Text, text_eq}
use sesfikile.Base.Sort.{order_by}
use sesfikile.Identity.Models.{
  Role, role_valid, kyc_pending, compliance_pending, User, Driver, Vehicle, VehicleAssignment,
}
use sesfikile.Wallet.Accounts.{scan, missing_to_not_found}
use sesfikile.Database.Schema.{Db}
use sesfikile.Database.Session.{
  Env, Error, constraint, unique_violation, foreign_key_violation, already_exists, Result, ok, err,
  Action, raise, catch, on_pool, query, exec,
}

abbrev pub active_of_driver : ℕ → VehicleAssignment → Bool
active_of_driver driver va = if va.driver_id == driver then va.active else false

abbrev pub active_of_vehicle : ℕ → VehicleAssignment → Bool
active_of_vehicle vehicle va = if va.vehicle_id == vehicle then va.active else false

-- `isUniqueViolation(err)`
abbrev pub taken_to_already_exists {ℓ} : {A : Type ℓ} → Error → Action A
taken_to_already_exists unique_violation = raise already_exists
taken_to_already_exists e = raise e

-- Null emails are different from one another.
abbrev pub same_email : Option Text → Option Text → Bool
same_email (some a) (some b) = text_eq a b
same_email none b = false
same_email (some a) none = false

-- The phone and the email are unique, and `user_role` has three values.
unfoldable pub add_user : Text → Option Text → Text → Role → ℕ → ℕ → Db → Result (User × Db)
add_user phone email password_hash role id now d =
    let u : User = record {
      id = id;
      phone = phone;
      email = email;
      password_hash = password_hash;
      role = role;
      created_at = now;
      updated_at = now;
    } in
    if not (role_valid role)
    then err constraint
    else if any (λ (x : User). text_eq x.phone phone || same_email x.email email) d.users
    then err unique_violation
    else ok (u, record d { users = d.users ++ u ∷ [] })

abbrev pub has_user : ℕ → Db → Bool
has_user id d = any (λ (u : User). u.id == id) d.users

unfoldable pub add_driver : ℕ → Text → Text → Text → ℕ → ℕ → Db → Result (Driver × Db)
add_driver user_id full_name prdp_number id_number id now d =
    let x : Driver = record {
      id = id;
      user_id = user_id;
      full_name = full_name;
      prdp_number = prdp_number;
      prdp_verified = false;
      id_number = id_number;
      kyc_status = kyc_pending;
      created_at = now;
      updated_at = now;
    } in
    if any (λ (y : Driver). y.user_id == user_id) d.drivers
    then err unique_violation
    else if has_user user_id d
    then ok (x, record d { drivers = d.drivers ++ x ∷ [] })
    else err foreign_key_violation

unfoldable pub add_vehicle : ℕ → Text → ℕ → Option Text → ℕ → ℕ → Db → Result (Vehicle × Db)
add_vehicle owner_user_id registration capacity association_name id now d =
    let v : Vehicle = record {
      id = id;
      owner_user_id = owner_user_id;
      registration = registration;
      capacity = capacity;
      association_name = association_name;
      compliance_status = compliance_pending;
      created_at = now;
      updated_at = now;
    } in
    if any (λ (w : Vehicle). text_eq w.registration registration) d.vehicles
    then err unique_violation
    else if has_user owner_user_id d
    then ok (v, record d { vehicles = d.vehicles ++ v ∷ [] })
    else err foreign_key_violation

-- A vehicle and a driver have one active assignment at most.
unfoldable pub add_assignment : (vehicle driver : ℕ) → ℕ → ℕ → Db → Result (VehicleAssignment × Db)
add_assignment vehicle driver id now d =
    let a : VehicleAssignment = record {
      id = id;
      vehicle_id = vehicle;
      driver_id = driver;
      active = true;
      created_at = now;
      updated_at = now;
    } in
    if any (λ va. active_of_vehicle vehicle va || active_of_driver driver va) d.vehicle_assignments
    then err unique_violation
    else if any (λ (v : Vehicle). v.id == vehicle) d.vehicles
        && any (λ (x : Driver). x.id == driver) d.drivers
    then ok (a, record d { vehicle_assignments = d.vehicle_assignments ++ a ∷ [] })
    else err foreign_key_violation

-- The drivers, each as often as it is actively assigned to a vehicle of the owner.
unfoldable pub assigned_to : ℕ → List Vehicle → List VehicleAssignment → Driver → List Driver
assigned_to owner vehicles [] x = []
assigned_to owner vehicles (va ∷ rest) x =
    (if active_of_driver x.id va
        && any (λ (v : Vehicle). v.id == va.vehicle_id && v.owner_user_id == owner) vehicles
      then x ∷ []
      else [])
    ++ assigned_to owner vehicles rest x

unfoldable pub drivers_of : ℕ → List Vehicle → List VehicleAssignment → List Driver → List Driver
drivers_of owner vehicles assignments [] = []
drivers_of owner vehicles assignments (x ∷ rest) =
    assigned_to owner vehicles assignments x ++ drivers_of owner vehicles assignments rest

module _ ⦃env : Env⦄ where
  unfoldable pub create_user : Text → Option Text → Text → Role → Action User
  create_user phone email password_hash role =
      catch (exec on_pool (add_user phone email password_hash role)) taken_to_already_exists

  unfoldable pub get_user_by_phone : Text → Action User
  get_user_by_phone phone =
      catch (query on_pool (λ d. scan (find? (λ (u : User). text_eq u.phone phone) d.users)))
        missing_to_not_found

  unfoldable pub get_user_by_id : ℕ → Action User
  get_user_by_id id =
      catch (query on_pool (λ d. scan (find? (λ (u : User). u.id == id) d.users)))
        missing_to_not_found

  unfoldable pub get_driver_by_user_id : ℕ → Action Driver
  get_driver_by_user_id user_id =
      catch (query on_pool (λ d. scan (find? (λ (x : Driver). x.user_id == user_id) d.drivers)))
        missing_to_not_found

  unfoldable pub create_driver : ℕ → Text → Text → Text → Action Driver
  create_driver user_id full_name prdp_number id_number =
      catch (exec on_pool (add_driver user_id full_name prdp_number id_number))
        taken_to_already_exists

  unfoldable pub get_vehicle_by_registration : Text → Action Vehicle
  get_vehicle_by_registration registration =
      catch
        (query on_pool
          (λ d. scan (find? (λ (v : Vehicle). text_eq v.registration registration) d.vehicles)))
        missing_to_not_found

  unfoldable pub get_vehicle_by_id : ℕ → Action Vehicle
  get_vehicle_by_id id =
      catch (query on_pool (λ d. scan (find? (λ (v : Vehicle). v.id == id) d.vehicles)))
        missing_to_not_found

  unfoldable pub create_vehicle : ℕ → Text → ℕ → Option Text → Action Vehicle
  create_vehicle owner_user_id registration capacity association_name =
      catch (exec on_pool (add_vehicle owner_user_id registration capacity association_name))
        taken_to_already_exists

  unfoldable pub list_vehicles_by_owner_user_id : ℕ → Action (List Vehicle)
  list_vehicles_by_owner_user_id owner = query on_pool (λ d. ok (
      order_by (λ (a b : Vehicle). env.collates a.registration b.registration)
        (filter (λ (v : Vehicle). v.owner_user_id == owner) d.vehicles)))

  unfoldable pub get_active_assignment_by_vehicle_id : ℕ → Action VehicleAssignment
  get_active_assignment_by_vehicle_id vehicle =
      catch (query on_pool (λ d. scan (find? (active_of_vehicle vehicle) d.vehicle_assignments)))
        missing_to_not_found

  unfoldable pub get_driver_by_id : ℕ → Action Driver
  get_driver_by_id id =
      catch (query on_pool (λ d. scan (find? (λ (x : Driver). x.id == id) d.drivers)))
        missing_to_not_found

  unfoldable pub list_drivers_by_owner_user_id : ℕ → Action (List Driver)
  list_drivers_by_owner_user_id owner = query on_pool (λ d. ok (
      order_by (λ (a b : Driver). env.collates a.full_name b.full_name)
        (drivers_of owner d.vehicles d.vehicle_assignments d.drivers)))

  unfoldable pub get_active_vehicle_assignment_by_driver_id : ℕ → Action VehicleAssignment
  get_active_vehicle_assignment_by_driver_id driver_id =
      catch (query on_pool (λ d. scan (find? (active_of_driver driver_id) d.vehicle_assignments)))
        missing_to_not_found

  unfoldable pub create_vehicle_assignment : (vehicle driver : ℕ) → Action VehicleAssignment
  create_vehicle_assignment vehicle driver =
      catch (exec on_pool (add_assignment vehicle driver)) taken_to_already_exists
