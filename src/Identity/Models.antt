-- ===== src/Identity/Models.antt =====
-- backend/internal/identity/models.go. Times are numbers of ticks; an id is only compared.
use sesfikile.Base.{ℕ, Bool, Option, ◌||◌}
use sesfikile.Base.Text.{Text, bytes, text_eq}

-- A role is a string that may hold anything; three of its values are valid.
abbrev pub Role : Type 0
Role = Text

abbrev pub role_commuter : Role
role_commuter = bytes "commuter"

abbrev pub role_driver : Role
role_driver = bytes "driver"

abbrev pub role_owner : Role
role_owner = bytes "owner"

-- `Role.Valid`
unfoldable pub role_valid : Role → Bool
role_valid r = text_eq r role_commuter || text_eq r role_driver || text_eq r role_owner

pub data KycStatus : Type 0 where
  kyc_pending kyc_verified kyc_rejected : KycStatus

pub data ComplianceStatus : Type 0 where
  compliance_pending compliance_verified : ComplianceStatus

pub record User : Type 0 where
  pub id : ℕ
  pub phone : Text
  pub email : Option Text
  pub password_hash : Text
  pub role : Role
  pub created_at : ℕ
  pub updated_at : ℕ

pub record Driver : Type 0 where
  pub id : ℕ
  pub user_id : ℕ
  pub full_name : Text
  pub prdp_number : Text
  pub prdp_verified : Bool
  pub id_number : Text
  pub kyc_status : KycStatus
  pub created_at : ℕ
  pub updated_at : ℕ

pub record Vehicle : Type 0 where
  pub id : ℕ
  pub owner_user_id : ℕ
  pub registration : Text
  pub capacity : ℕ
  pub association_name : Option Text
  pub compliance_status : ComplianceStatus
  pub created_at : ℕ
  pub updated_at : ℕ

pub record VehicleAssignment : Type 0 where
  pub id : ℕ
  pub vehicle_id : ℕ
  pub driver_id : ℕ
  pub active : Bool
  pub created_at : ℕ
  pub updated_at : ℕ
