-- ===== src/Inventory/Receiving.antt =====
-- Receiving a warehouse purchase (src/modules/inventory/inventory.service.ts): `processReceipt` with
-- `applyReceiptQuantity`, and `processWaitingOrders`, which offers the stock to the waiting orders,
-- oldest first.
pub mod Item
pub mod Outcome
pub mod Goods
pub mod Frame
pub mod Stocked
use hpl_back.Base.{
  ℕ, suc, ◌+◌, ◌-◌, Bool, true, false, ◌&&◌, Option, none, some, List, [], ◌∷◌, ◌++◌, not,
  if◌then◌else◌, ◌==◌, ltb, leb, ℤ, pos, negsuc, ◌+ℤ◌, same, length, any, take, select_from, ltb_ℤ,
}
use hpl_back.Domain.{
  ExpectedReceiptStatus, expected_receipt_status_enum, OrderStatus, order_status_enum,
}
use hpl_back.Store.{
  Db, StockBalance, ExpectedReceipt, ExpectedReceiptItem, ExpectedReceiptEvent,
  ExpectedReceiptEventItem, ClientReceiptId, empty_text, text, Order, OrderItem, AuditEvent,
  Exception, bad_request, conflict, not_found, forbidden, business, known_request, Reason,
  unique_constraint, no_items, item_not_found, receipt_cancelled, actor_required,
  accepted_not_positive, exceeds_expected, rejected_negative, modified_concurrently, Action, ok,
  pure, throw, gets, or_throw, catch, transaction, ◌>>=◌, ◌>>◌, modify, throw_if, unless, for_each,
  audit, at_key, update_balance, update_order, update_order_item, update_receipt,
  update_receipt_item,
}
use hpl_back.Inventory.Stock.{ReserveStockItem, reserve_stock}
use hpl_back.Inventory.Receipts.{
  or_else, of_receipt, rows_of, find_item, lock_expected_receipt, current_status,
}

pub record ReceivedItem : Type 0 where
  pub item_id : ℕ
  pub accepted_quantity : Option ℤ
  pub received_quantity : Option ℤ
  pub rejected_quantity : Option ℤ

pub record ReceiveExpectedReceipt : Type 0 where
  pub client_receipt_id : Option ClientReceiptId
  pub comment : Option ℕ
  pub items : List ReceivedItem

-- What passes `!acceptedQuantity || acceptedQuantity <= 0`.
abbrev pub positive : Option ℤ → Option ℕ
positive (some (pos (suc n))) = some (suc n)
positive _ = none

abbrev pub or_zero : Option ℤ → ℤ
or_zero none = pos 0
or_zero (some n) = n

abbrev pub has_row : Option StockBalance → Bool
has_row none = false
has_row (some _) = true

-- `stockBalance.create`: a second row of the product violates the uniqueness of its key.
unfoldable pub create_balance : ℕ → ℕ → Option ℕ → Action (Unit {0})
create_balance product quantity actor = do
  existing ← gets (λ db. db.balances product)
  throw_if (has_row existing) (known_request unique_constraint)
  modify λ db. record db {
    balances =
        at_key product
          (record {
            on_hand = pos quantity;
            reserved = pos 0;
            available = pos quantity;
            version = 0;
            updated_by = actor;
          })
          db.balances;
  }

-- The update of the row that was read, at its version.
unfoldable pub raise_balance : ℕ → ℕ → Option ℕ → Option StockBalance → Action (Unit {0})
raise_balance product quantity actor read = do
  current ← or_throw read (conflict modified_concurrently)
  count ←
      update_balance product (λ b. b.version == current.version)
        (λ b. record b {
          on_hand = b.on_hand +ℤ pos quantity;
          available = b.available +ℤ pos quantity;
          updated_by = actor;
          version = b.version + 1;
        })
  throw_if (count == 0) (conflict modified_concurrently)

-- The `catch` of the create: on a violated uniqueness the row is read again and raised.
unfoldable pub raise_created : ℕ → ℕ → Option ℕ → Exception → Action (Unit {0})
raise_created product quantity actor (known_request Reason.unique_constraint) =
    gets (λ db. db.balances product) >>= raise_balance product quantity actor
raise_created product quantity actor e = throw e

-- `applyReceiptQuantity` after its read, which may be stale.
unfoldable pub apply_read : ℕ → ℕ → Option ℕ → Option StockBalance → Action (Unit {0})
apply_read product quantity actor none =
    catch (create_balance product quantity actor) (raise_created product quantity actor)
apply_read product quantity actor (some current) =
    raise_balance product quantity actor (some current)

unfoldable pub apply_receipt_quantity : ℕ → ℕ → Option ℕ → Action (Unit {0})
apply_receipt_quantity product quantity actor = do
  read ← gets (λ db. db.balances product)
  apply_read product quantity actor read

-- The items that a waiting order reserves.
abbrev pub to_reserve : List (ℕ × OrderItem) → List ReserveStockItem
to_reserve [] = []
to_reserve ((_, i) ∷ rest) =
    record { product_id = i.product_id; quantity = i.quantity } ∷ to_reserve rest

abbrev pub of_order : ℕ → OrderItem → Bool
of_order order i = i.order_id == order

-- Each item's `reservedQuantity` becomes its quantity.
abbrev pub mark_reserved : ℕ × OrderItem → Action (Unit {0})
mark_reserved (k, i) = update_order_item k (λ j. record j { reserved_quantity = i.quantity })

abbrev pub to_waiting_payment : Order → Order
to_waiting_payment o = record o { status = OrderStatus.waiting_payment; version = o.version + 1 }

-- `continue` on the exceptions that a lack of stock throws.
abbrev pub skip_or_throw : Exception → Action (Unit {0})
skip_or_throw (bad_request r) = pure tt
skip_or_throw (conflict r) = pure tt
skip_or_throw e = throw e

-- The body of the `try` for one waiting order.
unfoldable pub serve_order : Option ℕ → ℕ → List (ℕ × OrderItem) → Action (Unit {0})
serve_order actor order items = do
  reserve_stock actor order (to_reserve items)
  for_each mark_reserved items
  update_order order (λ _. true) to_waiting_payment
  pure tt

unfoldable pub try_order : Option ℕ → ℕ × Order → Action (Unit {0})
try_order actor (order, _) = do
  items ← gets (λ db. select_from 0 (of_order order) db.order_items)
  if length items == 0 then pure tt else catch (serve_order actor order items) skip_or_throw

abbrev pub is_waiting : Order → Bool
is_waiting o = same o.status OrderStatus.waiting_stock && not o.deleted

unfoldable pub process_waiting_orders : Option ℕ → Action (Unit {0})
process_waiting_orders actor = do
  waiting ← gets (λ db. take 50 (select_from 0 is_waiting db.orders))
  for_each (try_order actor) waiting

-- One round of `processReceipt`. `items` is the receipt as it was read before the loop.
unfoldable pub receive_item :
    ℕ → ℕ → List (ℕ × ExpectedReceiptItem) → ReceivedItem → Action (Unit {0})
receive_item actor event items given = do
  item ← or_throw (find_item given.item_id items) (not_found item_not_found)
  accepted ←
      or_throw (positive (or_else given.accepted_quantity given.received_quantity))
        (bad_request accepted_not_positive)
  throw_if (ltb item.quantity (item.received_quantity + accepted)) (bad_request exceeds_expected)
  throw_if (ltb_ℤ (or_zero given.rejected_quantity) (pos 0)) (bad_request rejected_negative)
  count ←
      update_receipt_item given.item_id (λ i. leb i.received_quantity (item.quantity - accepted))
        (λ i. record i { received_quantity = i.received_quantity + accepted })
  throw_if (count == 0) (bad_request exceeds_expected)
  modify (λ db. record db {
    receipt_event_items =
        db.receipt_event_items
        ++ (record {
          receipt_event_id = event;
          expected_receipt_item_id = given.item_id;
          product_id = item.product_id;
          accepted_quantity = accepted;
          rejected_quantity = or_zero given.rejected_quantity;
        }
            ∷ []);
  })
  apply_receipt_quantity item.product_id accepted (some actor)

abbrev pub same_text : ClientReceiptId → ClientReceiptId → Bool
same_text empty_text empty_text = true
same_text (text a) (text b) = a == b
same_text empty_text (text _) = false
same_text (text _) empty_text = false

abbrev pub same_client : Option ClientReceiptId → Option ClientReceiptId → Bool
same_client (some a) (some b) = same_text a b
same_client _ _ = false

-- An event of the receipt with the client's key.
abbrev pub has_event : ℕ → Option ClientReceiptId → Db → Bool
has_event id key db =
    any (λ e. e.expected_receipt_id == id && same_client e.client_receipt_id key) db.receipt_events

abbrev pub is_truthy : Option ClientReceiptId → Bool
is_truthy none = false
is_truthy (some empty_text) = false
is_truthy (some (text _)) = true

-- The look-up of an earlier event, which a falsy key skips.
abbrev pub already_received : ℕ → Option ClientReceiptId → Db → Bool
already_received id key db = is_truthy key && has_event id key db

abbrev add_event : ℕ → ℕ → ReceiveExpectedReceipt → Db → Db
add_event id actor dto db = record db {
  receipt_events =
      db.receipt_events
      ++ (record {
        expected_receipt_id = id;
        received_by_id = actor;
        comment = dto.comment;
        client_receipt_id = dto.client_receipt_id;
      }
          ∷ []);
}

-- `expectedReceiptEvent.create`: a second event with the receipt and the key violates their uniqueness.
unfoldable pub create_event : ℕ → ℕ → ReceiveExpectedReceipt → Action (Unit {0})
create_event id actor dto = do
  taken ← gets (has_event id dto.client_receipt_id)
  throw_if taken (known_request unique_constraint)
  modify (add_event id actor dto)

-- The rest of `processReceipt`, once the receipt is known to be new.
unfoldable pub receive_all :
    ℕ → ReceiveExpectedReceipt → ℕ → List (ℕ × ExpectedReceiptItem) → Action (Unit {0})
receive_all id dto actor items = do
  event ← gets (λ db. length db.receipt_events)
  create_event id actor dto
  for_each (receive_item actor event items) dto.items
  process_waiting_orders (some actor)
  status ← gets (current_status id)
  audit (some actor) (AuditEvent.stock_receipt_processed id status)
  update_receipt id (λ r. record r { status = status })

unfoldable pub process_receipt : ℕ → ReceiveExpectedReceipt → Option ℕ → Action (Unit {0})
process_receipt id dto actor = do
  throw_if (length dto.items == 0) (bad_request no_items)
  transaction (do
    actor_id ← or_throw actor (bad_request actor_required)
    (receipt, items) ← lock_expected_receipt id
    known ← gets (already_received id dto.client_receipt_id)
    unless known (do
      throw_if (same receipt.status ExpectedReceiptStatus.cancelled) (bad_request receipt_cancelled)
      receive_all id dto actor_id items))
