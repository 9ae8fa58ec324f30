-- ===== src/Store/Rows.antt =====
-- The rows that the modelled services read and write (prisma/schema.prisma). A table is a list of rows
-- in creation order and a row's id is its position; nothing modelled here deletes a row. Stock balances
-- are keyed by the product, which is unique. Quantities and amounts are whole numbers of a fixed small
-- unit; the three columns of a balance, which the code decrements without a guard, are signed. Times
-- are milliseconds. Columns that no modelled code reads are left out;
-- of the suppliers only their number is kept.
use hpl_back.Base.{ℕ, ℤ, Bool, Option, none, List, []}
use hpl_back.Domain.{
  RoleName, FulfillmentSource, DealStage, OrderStatus, SupplierOrderStatus, PaymentStatus,
  PaymentRecordStatus, StockReservationStatus, ExpectedReceiptStatus, InstallationStatus,
  QuoteStatus, ReminderKind,
}

pub record User : Type 0 where
  pub is_active : Bool
  pub roles : List RoleName

pub record StockBalance : Type 0 where
  pub on_hand : ℤ
  pub reserved : ℤ
  pub available : ℤ
  pub version : ℕ
  pub updated_by : Option ℕ

pub record StockReservation : Type 0 where
  pub product_id : ℕ
  pub order_id : ℕ
  pub quantity : ℕ
  pub status : StockReservationStatus
  pub expires_at : Option ℕ

pub record DealItem : Type 0 where
  pub product_id : ℕ
  pub quantity_m2 : ℕ
  pub unit_price : ℕ
  pub total_price : ℕ

pub record Deal : Type 0 where
  pub owner_id : ℕ
  pub stage : DealStage
  pub completed_at : Option ℕ
  pub deleted : Bool
  pub fulfillment_source : Option FulfillmentSource
  pub installation_required : Option Bool
  pub total_amount : ℕ
  pub items : List DealItem

pub record Order : Type 0 where
  pub deal_id : ℕ
  pub status : OrderStatus
  pub payment_status : PaymentStatus
  pub total_amount : ℕ
  pub paid_amount : ℕ
  pub remaining_amount : ℕ
  pub deleted : Bool
  pub version : ℕ
  pub created_at : ℕ

pub record OrderItem : Type 0 where
  pub order_id : ℕ
  pub product_id : ℕ
  pub quantity : ℕ
  pub reserved_quantity : ℕ
  pub delivered_quantity : ℕ
  pub unit_price : ℕ
  pub total_price : ℕ

pub record Payment : Type 0 where
  pub order_id : ℕ
  pub amount : ℕ
  pub status : PaymentRecordStatus
  pub created_by_id : ℕ

pub record Delivery : Type 0 where
  pub order_id : ℕ

pub record DeliveryItem : Type 0 where
  pub delivery_id : ℕ
  pub order_item_id : ℕ
  pub quantity : ℕ

pub record SupplierOrder : Type 0 where
  pub deal_id : ℕ
  pub supplier_id : ℕ
  pub status : SupplierOrderStatus
  pub ordered_at : Option ℕ
  pub expected_ready_at : Option ℕ
  pub expected_shipment_at : Option ℕ
  pub expected_arrival_at : Option ℕ
  pub comment : Option ℕ
  pub created_by_id : Option ℕ
  pub ready_confirmed_at : Option ℕ
  pub ready_confirmed_by_id : Option ℕ
  pub delivered_at : Option ℕ
  pub delivered_by_id : Option ℕ

pub record PanelQuote : Type 0 where
  pub deal_id : Option ℕ
  pub status : QuoteStatus
  pub client_accepted_at : Option ℕ

-- The three columns are unique together.
pub record SupplierOrderReminderClaim : Type 0 where
  pub supplier_order_id : ℕ
  pub kind : ReminderKind
  pub reminder_date : ℕ

pub record DealInstallation : Type 0 where
  pub deal_id : ℕ
  pub status : InstallationStatus
  pub expected_installation_at : Option ℕ
  pub expected_completion_at : Option ℕ
  pub assessment_comment : Option ℕ
  pub work_comment : Option ℕ
  pub assessed_at : Option ℕ
  pub assessed_by_id : Option ℕ
  pub started_at : Option ℕ
  pub supervisor_confirmed_at : Option ℕ
  pub supervisor_confirmed_by_id : Option ℕ
  pub completed_at : Option ℕ

pub record ExpectedReceipt : Type 0 where
  pub supplier_id : Option ℕ
  pub ordered_at : ℕ
  pub expected_date : ℕ
  pub comment : Option ℕ
  pub created_by_id : Option ℕ
  pub status : ExpectedReceiptStatus

pub record ExpectedReceiptItem : Type 0 where
  pub expected_receipt_id : ℕ
  pub product_id : ℕ
  pub quantity : ℕ
  pub received_quantity : ℕ

-- A client's key for a receipt: the empty text is falsy.
pub data ClientReceiptId : Type 0 where
  empty_text : ClientReceiptId
  text : ℕ → ClientReceiptId

-- The receipt and the client's key are unique together; a null key is distinct from all others.
pub record ExpectedReceiptEvent : Type 0 where
  pub expected_receipt_id : ℕ
  pub received_by_id : ℕ
  pub comment : Option ℕ
  pub client_receipt_id : Option ClientReceiptId

pub record ExpectedReceiptEventItem : Type 0 where
  pub receipt_event_id : ℕ
  pub expected_receipt_item_id : ℕ
  pub product_id : ℕ
  pub accepted_quantity : ℕ
  pub rejected_quantity : ℤ

-- The audit log's `action` with the entity and the values it records.
pub data AuditEvent : Type 0 where
  stock_reserved :
      (old : Option (ℤ × ℤ)) (order product quantity : ℕ) (reserved available : ℤ) (expires_at : ℕ)
      → AuditEvent
  stock_released : (old : ℤ × ℤ) (order product quantity : ℕ) (reserved available : ℤ) → AuditEvent
  stock_committed : (old : ℤ × ℤ) (order product quantity : ℕ) (on_hand reserved : ℤ) → AuditEvent
  warehouse_purchase_created : (receipt items : ℕ) → AuditEvent
  warehouse_purchase_updated : (receipt : ℕ) (status : ExpectedReceiptStatus) → AuditEvent
  warehouse_purchase_cancelled : (receipt : ℕ) (old : ExpectedReceiptStatus) → AuditEvent
  stock_receipt_processed : (receipt : ℕ) (status : ExpectedReceiptStatus) → AuditEvent
  payment_status_changed :
      (payment order : ℕ) (status : PaymentRecordStatus) (paid remaining : ℕ) → AuditEvent
  order_cancelled : (order : ℕ) (old : OrderStatus) → AuditEvent
  order_auto_cancelled_reserve_ttl : (order : ℕ) → AuditEvent
  deal_completed : (deal completed_at : ℕ) → AuditEvent
  supplier_order_created : (supplier_order deal : ℕ) → AuditEvent
  supplier_order_dates_changed :
      (supplier_order : ℕ) (old new : Option ℕ × Option ℕ × Option ℕ) → AuditEvent
  supplier_order_ready_confirmed :
      (supplier_order : ℕ) (old : SupplierOrderStatus) (at by : ℕ) → AuditEvent
  client_delivery_confirmed : (supplier_order at by : ℕ) → AuditEvent
  supplier_order_status_changed : (supplier_order : ℕ) (old new : SupplierOrderStatus) → AuditEvent
  installation_scheduled : (installation : ℕ) (new : Option ℕ × Option ℕ) → AuditEvent
  installation_dates_changed : (installation : ℕ) (old new : Option ℕ × Option ℕ) → AuditEvent
  installation_assessed : (installation by : ℕ) → AuditEvent
  installation_supervisor_confirmed : (installation at by : ℕ) → AuditEvent

pub record AuditLog : Type 0 where
  pub user_id : Option ℕ
  pub event : AuditEvent

pub data ActivityType : Type 0 where
  payment_received : (order payment : ℕ) (status : PaymentRecordStatus) → ActivityType
  status_changed : (order : ℕ) (previous new : OrderStatus) → ActivityType
  deal_completed : (deal completed_at : ℕ) → ActivityType
  supplier_order_created : (deal supplier_order : ℕ) → ActivityType
  supplier_order_dates_changed : (deal supplier_order : ℕ) → ActivityType
  supplier_order_status_changed :
      (deal supplier_order : ℕ) (old new : SupplierOrderStatus) → ActivityType
  client_delivery_confirmed : (deal supplier_order : ℕ) → ActivityType
  installation_updated : (deal installation : ℕ) → ActivityType

pub record Activity : Type 0 where
  pub author_id : ℕ
  pub type : ActivityType

-- What a notification is about, with its type.
pub data Topic : Type 0 where
  deal_completed : (deal : ℕ) → Topic
  supplier_order_ready : (supplier_order : ℕ) (kind : ReminderKind) → Topic

pub record Notification : Type 0 where
  pub user_id : ℕ
  pub topic : Topic

pub record Db : Type 0 where
  pub now : ℕ
  pub users : List User
  pub balances : ℕ → Option StockBalance
  pub reservations : List StockReservation
  pub deals : List Deal
  pub orders : List Order
  pub order_items : List OrderItem
  pub payments : List Payment
  pub deliveries : List Delivery
  pub delivery_items : List DeliveryItem
  pub supplier_orders : List SupplierOrder
  pub panel_quotes : List PanelQuote
  pub suppliers : ℕ
  pub reminder_claims : List SupplierOrderReminderClaim
  pub installations : List DealInstallation
  pub receipts : List ExpectedReceipt
  pub receipt_items : List ExpectedReceiptItem
  pub receipt_events : List ExpectedReceiptEvent
  pub receipt_event_items : List ExpectedReceiptEventItem
  pub activities : List Activity
  pub notifications : List Notification
  pub audit_log : List AuditLog

-- The database before anything is stored.
abbrev pub empty_db : Db
empty_db = record {
  now = 0;
  users = [];
  balances = λ _. none;
  reservations = [];
  deals = [];
  orders = [];
  order_items = [];
  payments = [];
  deliveries = [];
  delivery_items = [];
  supplier_orders = [];
  panel_quotes = [];
  suppliers = 0;
  reminder_claims = [];
  installations = [];
  receipts = [];
  receipt_items = [];
  receipt_events = [];
  receipt_event_items = [];
  activities = [];
  notifications = [];
  audit_log = [];
}
