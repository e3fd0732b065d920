-- ===== src/Domain/Snapshot.antt =====
-- data/synthetic/rl001.py: the operational snapshot that an analysis works on, and the snapshot of
-- the RL-001 scenario.
use supply_response.Base.{
  String, false, ◌&&◌, Option, none, some, List, [], ◌∷◌, str_eq, if◌then◌else◌, max, ◌+◌,
}
use supply_response.Base.Int.{ℤ, pos, ◌+ℤ◌, ◌-ℤ◌}
use supply_response.Domain.Common.{RuntimeMode, Instant, Date}
use supply_response.Domain.Operations.{
  InventoryPosition, ProductionOrder, opened, CustomerOrder, Disruption, SupplyReceiptOption,
  InventoryTransfer, QualityQualification, QualificationStatus,
}

pub record OperationalSnapshot : Type 0 where
  pub case_id : String
  pub runtime_mode : RuntimeMode
  pub scenario_effective_time : Instant
  pub scenario_timezone : String
  pub analysis_horizon_start : Instant
  pub analysis_horizon_end : Date
  pub inventory_positions : List InventoryPosition
  pub production_orders : List ProductionOrder
  pub customer_orders : List CustomerOrder
  pub disruption : Disruption
  pub alpha_expedite : Option SupplyReceiptOption
  pub transfer : InventoryTransfer
  pub beta_qualification : QualityQualification

-- `sum(… for position in self.inventory_positions if …)`: no part of it is cut off at 0.
unfoldable pub usable_of : String → String → List InventoryPosition → ℤ
usable_of part_id plant_id [] = pos 0
usable_of part_id plant_id (p ∷ ps) =
    let rest = usable_of part_id plant_id ps in
    if str_eq p.part_id part_id && str_eq p.plant_id plant_id
    then pos p.on_hand -ℤ pos p.quality_hold -ℤ pos p.protected_allocation +ℤ rest
    else rest

abbrev pub usable_inventory : OperationalSnapshot → String → String → ℤ
usable_inventory s part_id plant_id = usable_of part_id plant_id s.inventory_positions

-- Dates by their ordinals: 2026-09-01 is day 739860.
abbrev pub september : Date → Date
september d = 739859 + d

abbrev pub scenario_effective_time : Instant
scenario_effective_time = 63923868000000000

abbrev pub first_order : ProductionOrder
first_order = record {
  production_order_id = "RL-MO-DEMO-1";
  product_id = "RL-PROD-00000";
  plant_id = "RL-PLANT-CHI";
  quantity = 2500;
  due_date = september 5;
  status = opened;
  component_demand = some 5000;
  customer_order_id = some "RL-CO-DEMO-1";
  customer_priority = some 3;
  customer_revenue = some 37500000;
  customer_margin = some 12500000;
}

abbrev pub second_order : ProductionOrder
second_order = record {
  production_order_id = "RL-MO-DEMO-2";
  product_id = "RL-PROD-00000";
  plant_id = "RL-PLANT-CHI";
  quantity = 2900;
  due_date = september 8;
  status = opened;
  component_demand = some 5800;
  customer_order_id = some "RL-CO-DEMO-2";
  customer_priority = some 1;
  customer_revenue = some 58000000;
  customer_margin = some 20300000;
}

abbrev pub rl001_orders : List ProductionOrder
rl001_orders = first_order ∷ second_order ∷ []

abbrev rl001_customer_orders : List CustomerOrder
rl001_customer_orders =
    record {
      customer_order_line_id = "RL-CO-DEMO-1";
      customer_id = "RL-CUST-DEMO-1";
      product_id = "RL-PROD-00000";
      plant_id = "RL-PLANT-CHI";
      production_order_id = some "RL-MO-DEMO-1";
      quantity = 2500;
      due_date = september 5;
      unit_revenue = 15000;
      unit_margin = 5000;
    }
    ∷ record {
      customer_order_line_id = "RL-CO-DEMO-2";
      customer_id = "RL-CUST-DEMO-2";
      product_id = "RL-PROD-00000";
      plant_id = "RL-PLANT-CHI";
      production_order_id = some "RL-MO-DEMO-2";
      quantity = 2900;
      due_date = september 8;
      unit_revenue = 20000;
      unit_margin = 7000;
    }
    ∷ []

abbrev chicago : InventoryPosition
chicago = record {
  inventory_id = "RL-INV-DEMO-CHI";
  part_id = "RL-MAT-10247";
  plant_id = "RL-PLANT-CHI";
  on_hand = 4500;
  quality_hold = 200;
  protected_allocation = 300;
}

abbrev dallas : InventoryPosition
dallas = record {
  inventory_id = "RL-INV-DEMO-DAL";
  part_id = "RL-MAT-10247";
  plant_id = "RL-PLANT-DAL";
  on_hand = 1800;
  quality_hold = 0;
  protected_allocation = 300;
}

-- The latest due date of the orders.
abbrev latest_due : List ProductionOrder → List CustomerOrder → Date
latest_due [] [] = 0
latest_due [] (c ∷ cs) = max c.due_date (latest_due [] cs)
latest_due (o ∷ os) cs = max o.due_date (latest_due os cs)

abbrev pub rl001 : String → RuntimeMode → OperationalSnapshot
rl001 case_id runtime_mode = record {
  case_id = case_id;
  runtime_mode = runtime_mode;
  scenario_effective_time = scenario_effective_time;
  scenario_timezone = "America/Chicago";
  analysis_horizon_start = scenario_effective_time;
  analysis_horizon_end = latest_due rl001_orders rl001_customer_orders;
  inventory_positions = chicago ∷ dallas ∷ [];
  production_orders = rl001_orders;
  customer_orders = rl001_customer_orders;
  disruption = record {
    disruption_id = "RL-DISRUPTION-001";
    supplier_id = "RL-SUP-ALPHA";
    po_line_id = "RL-PO-000001";
    part_id = "RL-MAT-10247";
    plant_id = "RL-PLANT-CHI";
    original_quantity = 8000;
    original_due_date = september 3;
    partial_quantity = 0;
    partial_due_date = none;
    recovery_date = none;
    source_ref = "RL-001";
  };
  alpha_expedite = some (record {
    receipt_id = "RL-ALPHA-OPTIONAL-3000";
    supplier_id = "RL-SUP-ALPHA";
    part_id = "RL-MAT-10247";
    plant_id = "RL-PLANT-CHI";
    quantity = 3000;
    due_date = september 6;
    incremental_cost_per_unit = 750;
  });
  transfer = record {
    transfer_id = "RL-TRANSFER-DAL-CHI-1500";
    part_id = "RL-MAT-10247";
    source_plant_id = "RL-PLANT-DAL";
    destination_plant_id = "RL-PLANT-CHI";
    quantity = 1500;
    dispatch_date = september 4;
    arrival_date = september 5;
    incremental_cost_per_unit = 150;
  };
  beta_qualification = record {
    qualification_id = "RL-QUAL-BETA";
    supplier_id = "RL-SUP-BETA";
    part_id = "RL-MAT-10247";
    status = QualificationStatus.pending;
    effective_date = none;
    evidence_ref = "RL-QUALITY-001";
    audit_complete = some false;
    first_article_complete = some false;
    expected_decision_date = some (september 15);
  };
}
