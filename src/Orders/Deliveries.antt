-- ===== src/Orders/Deliveries.antt =====
-- `createDelivery` (src/modules/orders/orders.service.ts).
pub mod Items
pub mod Frame
pub mod Within
pub mod Outcome
use hpl_back.Base.{
  ℕ, suc, ◌+◌, Bool, true, false, not, ◌&&◌, Option, none, some, List, [], ◌∷◌, ◌++◌, map,
  if◌then◌else◌, ◌==◌, ltb, same, any, length,
}
use hpl_back.Domain.{OrderStatus, order_status_enum}
use hpl_back.Store.{
  Db, Order, OrderItem, DeliveryItem, order_not_found, item_not_found, order_is_cancelled,
  exceeds_remaining, not_found, conflict, bad_request, ok, Action, pure, gets, or_throw,
  transaction, ◌>>=◌, ◌>>◌, throw_if, for_each, update_order_item,
}
use hpl_back.Access.{PolicyUser, OrderPermissions}
use hpl_back.Inventory.Stock.{ReserveStockItem, commit_reservation}
use hpl_back.Deals.{lock_fulfillment_rows, try_finalize}
use hpl_back.SupplierOrders.{assert_paid_for_client_shipment}
use hpl_back.Orders.{
  live_order, read_order, assert_order_mutation_allowed, update_order_shipment_status,
}

pub record CreateDeliveryItem : Type 0 where
  pub order_item_id : ℕ
  pub quantity : ℕ

-- The date, the recipient and the tracking number are copied and never read by what is modelled.
pub record CreateDelivery : Type 0 where
  pub order_id : ℕ
  pub items : List CreateDeliveryItem

abbrev pub item_id : CreateDeliveryItem → ℕ
item_id e = e.order_item_id

abbrev pub named : ℕ → List CreateDeliveryItem → Bool
named k items = any (λ e. e.order_item_id == k) items

-- The rows from id `i` on that are the order's and that the request names.
unfoldable pub items_in : ℕ → ℕ → List CreateDeliveryItem → List OrderItem → List (ℕ × OrderItem)
items_in i order items [] = []
items_in i order items (r ∷ rows) =
    let rest = items_in (suc i) order items rows in
    if r.order_id == order && named i items then (i, r) ∷ rest else rest

unfoldable pub find_order_item : ℕ → List (ℕ × OrderItem) → Option OrderItem
find_order_item k [] = none
find_order_item k ((i, r) ∷ rest) =
    let found = find_order_item k rest in if i == k then some r else found

abbrev pub stock_item : OrderItem → CreateDeliveryItem → ReserveStockItem
stock_item r e = record { product_id = r.product_id; quantity = e.quantity }

-- The first loop: each entry's row and what is left of it to deliver.
unfoldable pub stock_items :
    List (ℕ × OrderItem) → List CreateDeliveryItem → Action (List ReserveStockItem)
stock_items rows [] = pure []
stock_items rows (e ∷ es) = do
  row ← or_throw (find_order_item e.order_item_id rows) (not_found item_not_found)
  throw_if (ltb row.quantity (e.quantity + row.delivered_quantity)) (bad_request exceeds_remaining)
  rest ← stock_items rows es
  pure (stock_item row e ∷ rest)

abbrev pub delivery_item : ℕ → CreateDeliveryItem → DeliveryItem
delivery_item delivery e = record {
  delivery_id = delivery;
  order_item_id = e.order_item_id;
  quantity = e.quantity;
}

-- `delivery.create` with its items: the id of the new delivery.
abbrev pub add_delivery : CreateDelivery → Action ℕ
add_delivery dto db = (
  ok (length db.deliveries),
  record db {
    deliveries = db.deliveries ++ (record { order_id = dto.order_id } ∷ []);
    delivery_items = db.delivery_items ++ map (delivery_item (length db.deliveries)) dto.items;
  },
)

abbrev pub with_delivered : ℕ → OrderItem → OrderItem
with_delivered n r = record r { delivered_quantity = r.delivered_quantity + n }

abbrev pub add_delivered : CreateDeliveryItem → Action (Unit {0})
add_delivered e = update_order_item e.order_item_id (with_delivered e.quantity)

-- What follows the items: the stock, the order's status, the deal.
unfoldable pub finish_delivery : ℕ → ℕ → ℕ → ℕ → List ReserveStockItem → Action Bool
finish_delivery order actor deal_id version stock = do
  commit_reservation order stock (some actor)
  update_order_shipment_status order version
  try_finalize deal_id actor

-- The writes, once the entries have passed.
unfoldable pub write_delivery : CreateDelivery → ℕ → ℕ → ℕ → List ReserveStockItem → Action ℕ
write_delivery dto actor deal_id version stock = do
  delivery ← add_delivery dto
  for_each add_delivered dto.items
  finish_delivery dto.order_id actor deal_id version stock
  pure delivery

unfoldable pub deliver : CreateDelivery → ℕ → ℕ → ℕ → Action ℕ
deliver dto actor deal_id version = do
  rows ← gets (λ db. items_in 0 dto.order_id dto.items db.order_items)
  throw_if (not (length rows == length dto.items)) (not_found item_not_found)
  stock ← stock_items rows dto.items
  write_delivery dto actor deal_id version stock

-- The transaction.
unfoldable pub delivery_write : CreateDelivery → ℕ → ℕ → Action ℕ
delivery_write dto actor deal_id = do
  lock_fulfillment_rows deal_id
  found ← gets (live_order dto.order_id)
  order ← or_throw found (not_found order_not_found)
  throw_if (same order.status OrderStatus.cancelled) (conflict order_is_cancelled)
  assert_paid_for_client_shipment (some order.payment_status)
  deliver dto actor deal_id order.version

unfoldable pub create_delivery : CreateDelivery → PolicyUser → Action ℕ
create_delivery dto user = do
  existing ← read_order dto.order_id
  throw_if (same existing.0.status OrderStatus.cancelled) (conflict order_is_cancelled)
  assert_order_mutation_allowed user existing.0 existing.1 (λ p. p.can_create_delivery)
  transaction (delivery_write dto user.id existing.0.deal_id)
