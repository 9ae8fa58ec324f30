-- ===== src/Domain.antt =====
-- The enums of prisma/schema.prisma that the modelled services branch on, each with the position of its
-- members, by which they are compared.
use hpl_back.Base.{ℕ, Enum}

pub data RoleName : Type 0 where
  admin director head manager accountant storekeeper engineer : RoleName

abbrev pub role_name_position : RoleName → ℕ
role_name_position RoleName.admin = 0
role_name_position RoleName.director = 1
role_name_position RoleName.head = 2
role_name_position RoleName.manager = 3
role_name_position RoleName.accountant = 4
role_name_position RoleName.storekeeper = 5
role_name_position RoleName.engineer = 6

instance abbrev pub role_name_enum : Enum RoleName
role_name_enum = record { position = role_name_position }

pub data FulfillmentSource : Type 0 where
  warehouse_stock supplier_order : FulfillmentSource

abbrev pub fulfillment_source_position : FulfillmentSource → ℕ
fulfillment_source_position FulfillmentSource.warehouse_stock = 0
fulfillment_source_position FulfillmentSource.supplier_order = 1

instance abbrev pub fulfillment_source_enum : Enum FulfillmentSource
fulfillment_source_enum = record { position = fulfillment_source_position }

pub data DealStage : Type 0 where
  qualification hpl_selection offer_preparation negotiation agreement_pending payment_preparation
        shipped won lost :
      DealStage

abbrev pub deal_stage_position : DealStage → ℕ
deal_stage_position DealStage.qualification = 0
deal_stage_position DealStage.hpl_selection = 1
deal_stage_position DealStage.offer_preparation = 2
deal_stage_position DealStage.negotiation = 3
deal_stage_position DealStage.agreement_pending = 4
deal_stage_position DealStage.payment_preparation = 5
deal_stage_position DealStage.shipped = 6
deal_stage_position DealStage.won = 7
deal_stage_position DealStage.lost = 8

instance abbrev pub deal_stage_enum : Enum DealStage
deal_stage_enum = record { position = deal_stage_position }

pub data OrderStatus : Type 0 where
  draft confirmed waiting_payment partially_paid paid waiting_stock pending_supplier
        ready_for_shipment partially_shipped shipped completed cancelled :
      OrderStatus

abbrev pub order_status_position : OrderStatus → ℕ
order_status_position OrderStatus.draft = 0
order_status_position OrderStatus.confirmed = 1
order_status_position OrderStatus.waiting_payment = 2
order_status_position OrderStatus.partially_paid = 3
order_status_position OrderStatus.paid = 4
order_status_position OrderStatus.waiting_stock = 5
order_status_position OrderStatus.pending_supplier = 6
order_status_position OrderStatus.ready_for_shipment = 7
order_status_position OrderStatus.partially_shipped = 8
order_status_position OrderStatus.shipped = 9
order_status_position OrderStatus.completed = 10
order_status_position OrderStatus.cancelled = 11

instance abbrev pub order_status_enum : Enum OrderStatus
order_status_enum = record { position = order_status_position }

pub data SupplierOrderStatus : Type 0 where
  draft sent_to_production in_production ready_for_shipment shipped delivered cancelled :
      SupplierOrderStatus

abbrev pub supplier_order_status_position : SupplierOrderStatus → ℕ
supplier_order_status_position SupplierOrderStatus.draft = 0
supplier_order_status_position SupplierOrderStatus.sent_to_production = 1
supplier_order_status_position SupplierOrderStatus.in_production = 2
supplier_order_status_position SupplierOrderStatus.ready_for_shipment = 3
supplier_order_status_position SupplierOrderStatus.shipped = 4
supplier_order_status_position SupplierOrderStatus.delivered = 5
supplier_order_status_position SupplierOrderStatus.cancelled = 6

instance abbrev pub supplier_order_status_enum : Enum SupplierOrderStatus
supplier_order_status_enum = record { position = supplier_order_status_position }

pub data PaymentStatus : Type 0 where
  unpaid partially_paid paid : PaymentStatus

abbrev pub payment_status_position : PaymentStatus → ℕ
payment_status_position PaymentStatus.unpaid = 0
payment_status_position PaymentStatus.partially_paid = 1
payment_status_position PaymentStatus.paid = 2

instance abbrev pub payment_status_enum : Enum PaymentStatus
payment_status_enum = record { position = payment_status_position }

pub data PaymentRecordStatus : Type 0 where
  pending confirmed rejected : PaymentRecordStatus

abbrev pub payment_record_status_position : PaymentRecordStatus → ℕ
payment_record_status_position PaymentRecordStatus.pending = 0
payment_record_status_position PaymentRecordStatus.confirmed = 1
payment_record_status_position PaymentRecordStatus.rejected = 2

instance abbrev pub payment_record_status_enum : Enum PaymentRecordStatus
payment_record_status_enum = record { position = payment_record_status_position }

pub data StockReservationStatus : Type 0 where
  active released fulfilled : StockReservationStatus

abbrev pub stock_reservation_status_position : StockReservationStatus → ℕ
stock_reservation_status_position StockReservationStatus.active = 0
stock_reservation_status_position StockReservationStatus.released = 1
stock_reservation_status_position StockReservationStatus.fulfilled = 2

instance abbrev pub stock_reservation_status_enum : Enum StockReservationStatus
stock_reservation_status_enum = record { position = stock_reservation_status_position }

pub data ExpectedReceiptStatus : Type 0 where
  pending partially_received received cancelled : ExpectedReceiptStatus

abbrev pub expected_receipt_status_position : ExpectedReceiptStatus → ℕ
expected_receipt_status_position ExpectedReceiptStatus.pending = 0
expected_receipt_status_position ExpectedReceiptStatus.partially_received = 1
expected_receipt_status_position ExpectedReceiptStatus.received = 2
expected_receipt_status_position ExpectedReceiptStatus.cancelled = 3

instance abbrev pub expected_receipt_status_enum : Enum ExpectedReceiptStatus
expected_receipt_status_enum = record { position = expected_receipt_status_position }

pub data InstallationStatus : Type 0 where
  scheduled in_progress completed : InstallationStatus

abbrev pub installation_status_position : InstallationStatus → ℕ
installation_status_position InstallationStatus.scheduled = 0
installation_status_position InstallationStatus.in_progress = 1
installation_status_position InstallationStatus.completed = 2

instance abbrev pub installation_status_enum : Enum InstallationStatus
installation_status_enum = record { position = installation_status_position }

pub data TaskStatus : Type 0 where
  pending in_progress completed cancelled : TaskStatus

abbrev pub task_status_position : TaskStatus → ℕ
task_status_position TaskStatus.pending = 0
task_status_position TaskStatus.in_progress = 1
task_status_position TaskStatus.completed = 2
task_status_position TaskStatus.cancelled = 3

instance abbrev pub task_status_enum : Enum TaskStatus
task_status_enum = record { position = task_status_position }

pub data TaskComputedStatus : Type 0 where
  on_time warning today overdue critical_overdue blocked : TaskComputedStatus

abbrev pub task_computed_status_position : TaskComputedStatus → ℕ
task_computed_status_position TaskComputedStatus.on_time = 0
task_computed_status_position TaskComputedStatus.warning = 1
task_computed_status_position TaskComputedStatus.today = 2
task_computed_status_position TaskComputedStatus.overdue = 3
task_computed_status_position TaskComputedStatus.critical_overdue = 4
task_computed_status_position TaskComputedStatus.blocked = 5

instance abbrev pub task_computed_status_enum : Enum TaskComputedStatus
task_computed_status_enum = record { position = task_computed_status_position }

pub data QuoteStatus : Type 0 where
  draft sent approved rejected converted : QuoteStatus

abbrev pub quote_status_position : QuoteStatus → ℕ
quote_status_position QuoteStatus.draft = 0
quote_status_position QuoteStatus.sent = 1
quote_status_position QuoteStatus.approved = 2
quote_status_position QuoteStatus.rejected = 3
quote_status_position QuoteStatus.converted = 4

instance abbrev pub quote_status_enum : Enum QuoteStatus
quote_status_enum = record { position = quote_status_position }

pub data ReminderKind : Type 0 where
  soft due overdue : ReminderKind

abbrev pub reminder_kind_position : ReminderKind → ℕ
reminder_kind_position ReminderKind.soft = 0
reminder_kind_position ReminderKind.due = 1
reminder_kind_position ReminderKind.overdue = 2

instance abbrev pub reminder_kind_enum : Enum ReminderKind
reminder_kind_enum = record { position = reminder_kind_position }
