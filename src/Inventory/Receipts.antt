-- ===== src/Inventory/Receipts.antt =====
-- Warehouse purchases (src/modules/inventory/inventory.service.ts): creating, changing and cancelling
-- them, and receiving goods. Receiving raises the stock and then offers it to the orders that wait.
use hpl_back.Base.{
  ℕ, Bool, true, Option, none, some, List, [], ◌∷◌, ◌++◌, map, if◌then◌else◌, ◌==◌, ltb, leb, same,
  length, get_elem?, any, all, select_from,
}
use hpl_back.Domain.{ExpectedReceiptStatus, expected_receipt_status_enum, order_status_enum}
use hpl_back.Store.{
  Db, ExpectedReceipt, ExpectedReceiptItem, AuditEvent, bad_request, not_found, no_items,
  item_not_found, receipt_not_found, receipt_cancelled, receiving_began, below_received, Action,
  pure, gets, or_throw, transaction, ◌>>=◌, ◌>>◌, modify, throw_if, unless, for_each, audit,
  update_receipt, update_receipt_item,
}

-- `a ?? b`.
abbrev pub or_else {ℓ} : {A : Type ℓ} → Option A → Option A → Option A
or_else none b = b
or_else (some a) b = some a

unfoldable pub calculate_receipt_status : List ExpectedReceiptItem → ExpectedReceiptStatus
calculate_receipt_status items =
    if all (λ i. leb i.quantity i.received_quantity) items
    then ExpectedReceiptStatus.received
    else if any (λ i. ltb 0 i.received_quantity) items
    then ExpectedReceiptStatus.partially_received
    else ExpectedReceiptStatus.pending

abbrev pub of_receipt : ℕ → ExpectedReceiptItem → Bool
of_receipt id i = i.expected_receipt_id == id

abbrev pub rows_of {ℓ} : {A : Type ℓ} → List (ℕ × A) → List A
rows_of [] = []
rows_of ((_, r) ∷ rest) = r ∷ rows_of rest

-- `receipt.items.find((item) => item.id === id)`.
abbrev pub find_item : ℕ → List (ℕ × ExpectedReceiptItem) → Option ExpectedReceiptItem
find_item id [] = none
find_item id ((k, i) ∷ rest) = if k == id then some i else find_item id rest

unfoldable pub lock_expected_receipt : ℕ → Action (ExpectedReceipt × List (ℕ × ExpectedReceiptItem))
lock_expected_receipt id = do
  found ← gets (λ db. get_elem? db.receipts id)
  receipt ← or_throw found (not_found receipt_not_found)
  items ← gets (λ db. select_from 0 (of_receipt id) db.receipt_items)
  pure (receipt, items)

-- The status that the rows of a receipt now have.
abbrev pub current_status : ℕ → Db → ExpectedReceiptStatus
current_status id db =
    calculate_receipt_status (rows_of (select_from 0 (of_receipt id) db.receipt_items))

pub record CreateItem : Type 0 where
  pub product_id : ℕ
  pub quantity : ℕ

pub record CreateExpectedReceipt : Type 0 where
  pub supplier_id : Option ℕ
  pub ordered_at : Option ℕ
  pub expected_date : ℕ
  pub comment : Option ℕ
  pub items : List CreateItem

abbrev new_item : ℕ → CreateItem → ExpectedReceiptItem
new_item id i = record {
  expected_receipt_id = id;
  product_id = i.product_id;
  quantity = i.quantity;
  received_quantity = 0;
}

abbrev value_or {ℓ} : {A : Type ℓ} → Option A → A → A
value_or none b = b
value_or (some a) b = a

unfoldable pub create_expected_receipt : CreateExpectedReceipt → Option ℕ → Action ℕ
create_expected_receipt dto actor = do
  throw_if (length dto.items == 0) (bad_request no_items)
  id ← gets (λ db. length db.receipts)
  modify (λ db. record db {
    receipts =
        db.receipts
        ++ (record {
          supplier_id = dto.supplier_id;
          ordered_at = value_or dto.ordered_at db.now;
          expected_date = dto.expected_date;
          comment = dto.comment;
          created_by_id = actor;
          status = ExpectedReceiptStatus.pending;
        }
            ∷ []);
    receipt_items = db.receipt_items ++ map (new_item id) dto.items;
  })
  audit actor (AuditEvent.warehouse_purchase_created id (length dto.items))
  pure id

pub record ItemUpdate : Type 0 where
  pub item_id : ℕ
  pub ordered_quantity : ℕ

pub record UpdateWarehousePurchase : Type 0 where
  pub expected_date : Option ℕ
  pub comment : Option ℕ
  pub items : Option (List ItemUpdate)

unfoldable pub update_item : List (ℕ × ExpectedReceiptItem) → ItemUpdate → Action (Unit {0})
update_item items u = do
  item ← or_throw (find_item u.item_id items) (not_found item_not_found)
  throw_if (ltb u.ordered_quantity item.received_quantity) (bad_request below_received)
  update_receipt_item u.item_id (λ _. true) (λ i. record i { quantity = u.ordered_quantity })
  pure tt

unfoldable pub update_warehouse_purchase :
    ℕ → UpdateWarehousePurchase → Option ℕ → Action (Unit {0})
update_warehouse_purchase id dto actor = transaction (do
  (receipt, items) ← lock_expected_receipt id
  throw_if (same receipt.status ExpectedReceiptStatus.cancelled) (bad_request receipt_cancelled)
  for_each (update_item items) (value_or dto.items [])
  status ← gets (current_status id)
  update_receipt id (λ r. record r {
    expected_date = value_or dto.expected_date r.expected_date;
    comment = or_else dto.comment r.comment;
    status = status;
  })
  audit actor (AuditEvent.warehouse_purchase_updated id status))

unfoldable pub cancel_warehouse_purchase : ℕ → Option ℕ → Action (Unit {0})
cancel_warehouse_purchase id actor = transaction (do
  (receipt, items) ← lock_expected_receipt id
  unless (same receipt.status ExpectedReceiptStatus.cancelled) (do
    throw_if (any (λ i. ltb 0 i.received_quantity) (rows_of items)) (bad_request receiving_began)
    update_receipt id (λ r. record r { status = ExpectedReceiptStatus.cancelled })
    audit actor (AuditEvent.warehouse_purchase_cancelled id receipt.status)))
