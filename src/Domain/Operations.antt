-- ===== src/Domain/Operations.antt =====
-- data/domain/operations.py: the operational records of a disruption. A field with the bound
-- `ge=0` or `gt=0` is a number.
use supply_response.Base.{ℕ, String, Option, Bool}
use supply_response.Domain.Common.{Date, Money}

pub data QualificationStatus : Type 0 where
  approved pending not_approved conditional : QualificationStatus

pub record InventoryPosition : Type 0 where
  pub inventory_id : String
  pub part_id : String
  pub plant_id : String
  pub on_hand : ℕ
  pub quality_hold : ℕ
  pub protected_allocation : ℕ

pub record BomComponent : Type 0 where
  pub bom_id : String
  pub product_id : String
  pub component_part_id : String
  pub quantity_per : ℕ

pub data ProductionOrderStatus : Type 0 where
  opened released : ProductionOrderStatus

pub record ProductionOrder : Type 0 where
  pub production_order_id : String
  pub product_id : String
  pub plant_id : String
  pub quantity : ℕ
  pub due_date : Date
  pub status : ProductionOrderStatus
  pub component_demand : Option ℕ
  pub customer_order_id : Option String
  pub customer_priority : Option ℕ
  pub customer_revenue : Option Money
  pub customer_margin : Option Money

pub record CustomerOrder : Type 0 where
  pub customer_order_line_id : String
  pub customer_id : String
  pub product_id : String
  pub plant_id : String
  pub production_order_id : Option String
  pub quantity : ℕ
  pub due_date : Date
  pub unit_revenue : Money
  pub unit_margin : Money

pub record SupplyReceiptOption : Type 0 where
  pub receipt_id : String
  pub supplier_id : String
  pub part_id : String
  pub plant_id : String
  pub quantity : ℕ
  pub due_date : Date
  pub incremental_cost_per_unit : Money

pub record InventoryTransfer : Type 0 where
  pub transfer_id : String
  pub part_id : String
  pub source_plant_id : String
  pub destination_plant_id : String
  pub quantity : ℕ
  pub dispatch_date : Date
  pub arrival_date : Date
  pub incremental_cost_per_unit : Money

pub record QualityQualification : Type 0 where
  pub qualification_id : String
  pub supplier_id : String
  pub part_id : String
  pub status : QualificationStatus
  pub effective_date : Option Date
  pub evidence_ref : String
  pub audit_complete : Option Bool
  pub first_article_complete : Option Bool
  pub expected_decision_date : Option Date

pub record Disruption : Type 0 where
  pub disruption_id : String
  pub supplier_id : String
  pub po_line_id : String
  pub part_id : String
  pub plant_id : String
  pub original_quantity : ℕ
  pub original_due_date : Date
  pub partial_quantity : ℕ
  pub partial_due_date : Option Date
  pub recovery_date : Option Date
  pub source_ref : String
