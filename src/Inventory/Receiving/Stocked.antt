-- ===== src/Inventory/Receiving/Stocked.antt =====
-- Receiving keeps the stock's invariant, and what it adds to the stock is what it records as received.
use hpl_back.Base.{ℕ, Option, List, arith, ◌==◌, select_from, length}
use hpl_back.Store.{OrderItem, Order, Exception, catch, pure}
use hpl_back.Store.Keeps.{Keeps, Keeps-for_each, Keeps-catch, Keeps-if}
use hpl_back.Inventory.Stock.{reserve_stock}
use hpl_back.Inventory.Stock.Balanced.{Balanced}
use hpl_back.Inventory.Stock.Reserve.{reserve_stock-Balanced}
use hpl_back.Inventory.Receiving.{
  serve_order, try_order, process_waiting_orders, mark_reserved, of_order, to_reserve,
  skip_or_throw,
}

mark_reserved-Balanced : (x : ℕ × OrderItem) → Keeps Balanced (mark_reserved x)
mark_reserved-Balanced (k, i) db h = h

skip_or_throw-Balanced : (e : Exception) → Keeps Balanced (skip_or_throw e)
skip_or_throw-Balanced (Exception.bad_request r) db h = h
skip_or_throw-Balanced (Exception.conflict r) db h = h
skip_or_throw-Balanced _ db h = h

serve_order-Balanced :
    (actor : Option ℕ) (order : ℕ) (items : List (ℕ × OrderItem))
    → Keeps Balanced (serve_order actor order items)
unfolding serve_order
serve_order-Balanced actor order items db h p =
    let reserved = reserve_stock-Balanced actor order (to_reserve items) db h in
    let db' = (reserve_stock actor order (to_reserve items) db).1 in
    ground (
      arith,
      reserved p,
      Keeps-for_each Balanced mark_reserved items mark_reserved-Balanced db' reserved p,
    )

try_order-Balanced : (actor : Option ℕ) (x : ℕ × Order) → Keeps Balanced (try_order actor x)
unfolding try_order
try_order-Balanced actor (order, o) db h =
    let items = select_from 0 (of_order order) db.order_items in
    Keeps-if Balanced (length items == 0) (pure tt)
      (catch (serve_order actor order items) skip_or_throw) (λ _ p. p)
      (Keeps-catch Balanced (serve_order actor order items) skip_or_throw
        (serve_order-Balanced actor order items) skip_or_throw-Balanced)
      db h

pub process_waiting_orders-Balanced :
    (actor : Option ℕ) → Keeps Balanced (process_waiting_orders actor)
unfolding process_waiting_orders
process_waiting_orders-Balanced actor db h =
    Keeps-for_each Balanced (try_order actor) _ (try_order-Balanced actor) db h
