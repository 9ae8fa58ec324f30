-- ===== src/Inventory/Receiving/Outcome.antt =====
-- What `processReceipt` does as a whole.
use hpl_back.Base.{
  ℕ, ◌≡◌, ap, refl, ◌∙◌, ◌⊎◌, Bool, true, false, ◌&&◌, not, Option, none, some, arith, ◌==◌,
  ==-refl, Option_cases, Bool_cases, inl, inr, select_from, get_elem?, same, length,
  any-append_last,
}
use hpl_back.Domain.{ExpectedReceiptStatus, expected_receipt_status_enum}
use hpl_back.Store.{
  Db, ClientReceiptId, ExpectedReceipt, Result, ok, is_ok, for_each, update_row, update_row-some,
}
use hpl_back.Inventory.Receipts.{lock_expected_receipt, of_receipt, current_status}
use hpl_back.Inventory.Receiving.{
  ReceiveExpectedReceipt, receive_item, receive_all, process_receipt, process_waiting_orders,
  add_event, create_event, has_event, is_truthy, already_received, same_client,
}
use hpl_back.Inventory.Receiving.Stocked.{process_waiting_orders-Balanced}
use hpl_back.Inventory.Receiving.Goods.{Within, Gained, receive_loop_start}
use hpl_back.Inventory.Receiving.Frame.{process_waiting_orders-Framed}
use hpl_back.Inventory.Stock.Balanced.{Balanced}
use hpl_back.Inventory.Stock.Commit.{stock}

module _ (id : ℕ) (dto : ReceiveExpectedReceipt) (actor : ℕ) (db : Db) where
  -- `receiveAll` on the items of the receipt.
  abbrev run : Result (Unit {0}) × Db
  run = receive_all id dto actor (select_from 0 (of_receipt id) db.receipt_items) db

  abbrev started : Db
  started = add_event id actor dto db

  abbrev looped : Result (Unit {0}) × Db
  looped =
      for_each
        (receive_item actor (length db.receipt_events)
          (select_from 0 (of_receipt id) db.receipt_items))
        dto.items started

  abbrev served : Db
  served = (process_waiting_orders (some actor) looped.1).1

  receive_all_fields :
      is_ok run.0 ≡ true
      → (is_ok looped.0 ≡ true)
        × (run.1.receipt_items ≡ served.receipt_items)
        × (run.1.receipt_events ≡ served.receipt_events)
        × (run.1.balances ≡ served.balances)
  unfolding receive_all create_event
  receive_all_fields e = ground arith

  module _ (h : Balanced db) (w : Within db) where
    receive_all-Balanced : Balanced run.1
    unfolding receive_all create_event
    receive_all-Balanced p =
        let (balanced, rest) =
          receive_loop_start actor (length db.receipt_events) (of_receipt id) dto.items started h
            w in
        elim (Bool_cases (has_event id dto.client_receipt_id db)) [
          | inl taken ↦ ground (arith, h p)
          | inr fresh ↦
              ground (
                arith,
                balanced p,
                process_waiting_orders-Balanced (some actor) looped.1 balanced p,
              )
        ]

    receive_all_done :
        is_ok run.0 ≡ true
        → Within run.1 × Gained db run.1 × (run.1.receipt_events ≡ started.receipt_events)
    receive_all_done e =
        let (looped_ok, rows, events, balances) = receive_all_fields e in
        let (within, gained, kept, _) =
          (receive_loop_start actor (length db.receipt_events) (of_receipt id) dto.items started h
              w).1
            looped_ok in
        let frame = λ (p : ℕ).
          process_waiting_orders-Framed p (stock p looped.1) looped.1.receipt_items
            looped.1.receipt_events looped.1.receipts (some actor) looped.1
            (refl, refl, refl, refl) in
        (
          rw (rows, (frame 0).1) within,
          λ p. ground (arith, gained p, frame p, rows, balances),
          events ∙ (frame 0).2 ∙ kept,
        )

-- Whether `processReceipt` gets as far as `receiveAll`.
abbrev process_ran : ℕ → ReceiveExpectedReceipt → ℕ → Db → Bool
process_ran id dto a db =
    not (length dto.items == 0)
    && not (already_received id dto.client_receipt_id db)
    && elim (get_elem? db.receipts id) [
      | none ↦ false
      | some receipt ↦ not (same receipt.status ExpectedReceiptStatus.cancelled)
    ]

-- The transaction of `processReceipt`, taken apart.
process_receipt_cases :
    (id : ℕ) (dto : ReceiveExpectedReceipt) (actor : Option ℕ) (db : Db)
    → let (r, db') = process_receipt id dto actor db in
      (db' ≡ db)
      ⊎ ((a : ℕ) × (actor ≡ some a)
          × (is_ok (run id dto a db).0 ≡ true)
          × (r ≡ ok tt)
          × (db' ≡ (run id dto a db).1))
unfolding process_receipt lock_expected_receipt
process_receipt_cases id dto none db = inl (ground arith)
process_receipt_cases id dto (some a) db = elim (Bool_cases (is_ok (run id dto a db).0)) [
  | inl fine ↦ elim (Bool_cases (process_ran id dto a db)) [
    | inl ran ↦ inr (a, refl, fine, ground arith, ground arith)
    | inr skipped ↦ inl (ground arith)
  ]
  | inr failed ↦ inl (ground arith)
]

-- processReceipt keeps the balance invariant and keeps every receipt item's received quantity
-- within the ordered one, even when one call names an item twice; each product's on-hand stock
-- grows by just what the receipt rows newly count as received; a call that throws changes nothing.
pub process_receipt-IsSound :
    (id : ℕ) (dto : ReceiveExpectedReceipt) (actor : Option ℕ) (db : Db)
    → Balanced db
    → Within db
    → let (r, db') = process_receipt id dto actor db in
      Balanced db' × Within db' × Gained db db' × (is_ok r ≡ false → db' ≡ db)
process_receipt-IsSound id dto actor db h w = elim (process_receipt_cases id dto actor db) [
  | inl same_db ↦ rw same_db (h, w, (λ p. refl), λ _. refl)
  | inr (a, e, fine, returned, ran) ↦
      let all = receive_all_done id dto a db h w fine in
      rw (returned, ran) (receive_all-Balanced id dto a db h w, all.0, all.1, λ no_ok. absurd (cc))
]

-- A database in which the request has been handled.
abbrev Handled : ℕ → ReceiveExpectedReceipt → Db → Type 0
Handled id dto db =
    ((length dto.items == 0) ≡ false)
    × (already_received id dto.client_receipt_id db ≡ true)
    × ((r : ExpectedReceipt) × (get_elem? db.receipts id ≡ some r))

Handled-ignored :
    (id : ℕ) (dto : ReceiveExpectedReceipt) (actor : ℕ) (db : Db)
    → Handled id dto db
    → process_receipt id dto (some actor) db ≡ (ok tt, db)
unfolding process_receipt lock_expected_receipt
Handled-ignored id dto actor db (items, known, (r, there)) = ground arith

receive_all-Handled :
    (id : ℕ) (dto : ReceiveExpectedReceipt) (actor c : ℕ) (db : Db)
    → dto.client_receipt_id ≡ some (ClientReceiptId.text c)
    → Balanced db
    → Within db
    → is_ok (run id dto actor db).0 ≡ true
    → already_received id dto.client_receipt_id (run id dto actor db).1 ≡ true
receive_all-Handled id dto actor c db e h w fine =
    let found : has_event id dto.client_receipt_id (run id dto actor db).1 ≡ true =
      rw ((receive_all_done id dto actor db h w fine).2) (
        any-append_last
          (λ x.
            x.expected_receipt_id == id && same_client x.client_receipt_id dto.client_receipt_id)
          db.receipt_events _ (ground (arith, ==-refl id, ==-refl c))) in
    let later : Db = (run id dto actor db).1 in
    ap (λ key. is_truthy key && has_event id dto.client_receipt_id later) e ∙ found

receive_all_receipts :
    (id : ℕ) (dto : ReceiveExpectedReceipt) (actor : ℕ) (db : Db)
    → is_ok (run id dto actor db).0 ≡ true
    → let before = served id dto actor db in
      (run id dto actor db).1.receipts
      ≡ (update_row id
          (λ _. true)
          (λ r. record r { status = current_status id before })
          before.receipts).0
unfolding receive_all create_event
receive_all_receipts id dto actor db e = ground arith

receive_all_receipt :
    (id : ℕ) (dto : ReceiveExpectedReceipt) (actor : ℕ) (db : Db) (r : ExpectedReceipt)
    → Balanced db
    → Within db
    → is_ok (run id dto actor db).0 ≡ true
    → get_elem? db.receipts id ≡ some r
    → (r' : ExpectedReceipt) × (get_elem? (run id dto actor db).1.receipts id ≡ some r')
receive_all_receipt id dto actor db r h w e there =
    let before = served id dto actor db in
    let mid = (looped id dto actor db).1 in
    let looped_ok = (receive_all_fields id dto actor db e).0 in
    let kept =
      ((receive_loop_start actor (length db.receipt_events) (of_receipt id) dto.items
          (started id dto actor db) h w).1
        looped_ok).3 in
    let framed =
      process_waiting_orders-Framed 0 (stock 0 mid) mid.receipt_items mid.receipt_events
        mid.receipts (some actor) mid (refl, refl, refl, refl) in
    rw (receive_all_receipts id dto actor db e) (
      update_row-some id (λ _. true) (λ x. record x { status = current_status id before })
        before.receipts r (ap (λ rows. get_elem? rows id) (framed.3 ∙ kept) ∙ there))

module _ (id : ℕ) (dto : ReceiveExpectedReceipt) (a : ℕ) (db : Db) where
  returned_found :
      (process_receipt id dto (some a) db).0 ≡ ok tt
      → ((length dto.items == 0) ≡ false)
        × ((r : ExpectedReceipt) × (get_elem? db.receipts id ≡ some r))
  unfolding process_receipt lock_expected_receipt
  returned_found returned = elim (Option_cases (get_elem? db.receipts id)) [
    | inl missing ↦ absurd (ground arith)
    | inr (r, there) ↦ (ground arith, (r, there))
  ]

  returned_known :
      already_received id dto.client_receipt_id db ≡ true
      → (process_receipt id dto (some a) db).0 ≡ ok tt
      → (process_receipt id dto (some a) db).1 ≡ db
  unfolding process_receipt lock_expected_receipt
  returned_known known returned = ground arith

  returned_new :
      already_received id dto.client_receipt_id db ≡ false
      → (process_receipt id dto (some a) db).0 ≡ ok tt
      → (is_ok (run id dto a db).0 ≡ true)
        × ((process_receipt id dto (some a) db).1 ≡ (run id dto a db).1)
  unfolding process_receipt lock_expected_receipt
  returned_new new returned = elim (Bool_cases (is_ok (run id dto a db).0)) [
    | inl fine ↦ (fine, ground arith)
    | inr failed ↦ absurd (ground arith)
  ]

-- A call that returned, of a request that carries a client's key.
returned-Handled :
    (id : ℕ) (dto : ReceiveExpectedReceipt) (a c : ℕ) (db : Db)
    → dto.client_receipt_id ≡ some (ClientReceiptId.text c)
    → Balanced db
    → Within db
    → (process_receipt id dto (some a) db).0 ≡ ok tt
    → Handled id dto (process_receipt id dto (some a) db).1
returned-Handled id dto a c db e h w returned =
    let (some_items, (r, there)) = returned_found id dto a db returned in
    elim (Bool_cases (already_received id dto.client_receipt_id db)) [
      | inl known ↦ rw (returned_known id dto a db known returned) (some_items, known, (r, there))
      | inr new ↦
          let (fine, ran) = returned_new id dto a db new returned in
          rw ran (
            some_items,
            receive_all-Handled id dto a c db e h w fine,
            receive_all_receipt id dto a db r h w fine there,
          )
    ]

-- If processReceipt returned for a request that carries a nonempty client receipt id, from a
-- balanced database whose items are within their orders, then the same request again, by any actor,
-- returns and changes nothing.
pub process_receipt_idempotent :
    (id : ℕ) (dto : ReceiveExpectedReceipt) (a b c : ℕ) (db : Db)
    → dto.client_receipt_id ≡ some (ClientReceiptId.text c)
    → Balanced db
    → Within db
    → (process_receipt id dto (some a) db).0 ≡ ok tt
    → let db' = (process_receipt id dto (some a) db).1 in
      process_receipt id dto (some b) db' ≡ (ok tt, db')
process_receipt_idempotent id dto a b c db e h w returned =
    Handled-ignored id dto b (process_receipt id dto (some a) db).1
      (returned-Handled id dto a c db e h w returned)
