-- ===== src/Inventory/Receiving/Frame.antt =====
-- Serving the waiting orders moves no goods and touches no receipt.
use hpl_back.Base.{ℕ, ◌≡◌, Option, List, [], ◌∷◌, arith, ◌==◌, select_from, length}
use hpl_back.Store.{
  Db, ExpectedReceipt, ExpectedReceiptItem, ExpectedReceiptEvent, OrderItem, Order, Exception,
  catch, pure,
}
use hpl_back.Store.Keeps.{Keeps, Keeps-for_each, Keeps-catch, Keeps-if}
use hpl_back.Inventory.Stock.{
  ReserveStockItem, reserve_stock, reserve_item, reserve_write, reserve_loop, aggregate_items,
}
use hpl_back.Inventory.Stock.Commit.{stock}
use hpl_back.Inventory.Receiving.{
  serve_order, try_order, process_waiting_orders, mark_reserved, of_order, to_reserve,
  skip_or_throw,
}

module _ (p c : ℕ) (rows : List ExpectedReceiptItem) (events : List ExpectedReceiptEvent)
    (receipts : List ExpectedReceipt) where
  -- The stock of a product and the receipts are these.
  abbrev pub Framed : Db → Type 0
  Framed db =
      (stock p db ≡ c)
      × (db.receipt_items ≡ rows)
      × (db.receipt_events ≡ events)
      × (db.receipts ≡ receipts)

  reserve_item-Framed :
      (actor : Option ℕ) (order : ℕ) (i : ReserveStockItem)
      → Keeps Framed (reserve_item actor order i)
  unfolding reserve_item reserve_write
  reserve_item-Framed actor order i db h = ground arith

  reserve_loop-Framed :
      (actor : Option ℕ) (order : ℕ) (items : List ReserveStockItem)
      → Keeps Framed (reserve_loop actor order items)
  unfolding reserve_loop
  reserve_loop-Framed actor order [] db h = h
  reserve_loop-Framed actor order (i ∷ is) db h =
      let first = reserve_item-Framed actor order i db h in
      ground
        (arith, first, reserve_loop-Framed actor order is (reserve_item actor order i db).1 first)

  reserve_stock-Framed :
      (actor : Option ℕ) (order : ℕ) (items : List ReserveStockItem)
      → Keeps Framed (reserve_stock actor order items)
  unfolding reserve_stock
  reserve_stock-Framed actor order items = reserve_loop-Framed actor order (aggregate_items items)

  mark_reserved-Framed : (x : ℕ × OrderItem) → Keeps Framed (mark_reserved x)
  mark_reserved-Framed (k, i) db h = h

  skip_or_throw-Framed : (e : Exception) → Keeps Framed (skip_or_throw e)
  skip_or_throw-Framed (Exception.bad_request r) db h = h
  skip_or_throw-Framed (Exception.conflict r) db h = h
  skip_or_throw-Framed _ db h = h

  serve_order-Framed :
      (actor : Option ℕ) (order : ℕ) (items : List (ℕ × OrderItem))
      → Keeps Framed (serve_order actor order items)
  unfolding serve_order
  serve_order-Framed actor order items db h =
      let reserved = reserve_stock-Framed actor order (to_reserve items) db h in
      let db' = (reserve_stock actor order (to_reserve items) db).1 in
      ground (
        arith,
        reserved,
        Keeps-for_each Framed mark_reserved items mark_reserved-Framed db' reserved,
      )

  try_order-Framed : (actor : Option ℕ) (x : ℕ × Order) → Keeps Framed (try_order actor x)
  unfolding try_order
  try_order-Framed actor (order, o) db h =
      let items = select_from 0 (of_order order) db.order_items in
      Keeps-if Framed (length items == 0) (pure tt)
        (catch (serve_order actor order items) skip_or_throw) (λ _ q. q)
        (Keeps-catch Framed (serve_order actor order items) skip_or_throw
          (serve_order-Framed actor order items) skip_or_throw-Framed)
        db h

  pub process_waiting_orders-Framed :
      (actor : Option ℕ) → Keeps Framed (process_waiting_orders actor)
  unfolding process_waiting_orders
  process_waiting_orders-Framed actor db h =
      Keeps-for_each Framed (try_order actor) _ (try_order-Framed actor) db h
