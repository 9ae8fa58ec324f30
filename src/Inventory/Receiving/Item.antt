-- ===== src/Inventory/Receiving/Item.antt =====
-- One round of `processReceipt`: it throws and changes nothing, or it records and stocks the goods.
use hpl_back.Base.{
  ℕ, suc, ◌+◌, ◌-◌, ◌≡◌, ◌≤◌, ◌<◌, ◌⊎◌, false, Option, none, some, List, [], ◌∷◌, ◌++◌, arith,
  ==-refl, Option_cases, Bool_cases, inl, inr, ltb, leb, ltb_ℤ, ℤ, zero, pos, negsuc, ◌+ℤ◌,
  get_elem?, set,
}
use hpl_back.Store.{Db, StockBalance, ExpectedReceiptItem, ok, is_ok, at_key}
use hpl_back.Inventory.Receipts.{find_item, or_else}
use hpl_back.Inventory.Receiving.{
  ReceivedItem, apply_read, create_balance, raise_balance, raise_created, apply_receipt_quantity,
  receive_item, positive, or_zero,
}

-- The balance after a receipt.
abbrev pub raise : ℕ → ℕ → Option StockBalance → StockBalance
raise q actor none = record {
  on_hand = pos q;
  reserved = pos 0;
  available = pos q;
  version = 0;
  updated_by = some actor;
}
raise q actor (some b) = record b {
  on_hand = b.on_hand +ℤ pos q;
  available = b.available +ℤ pos q;
  updated_by = some actor;
  version = b.version + 1;
}

abbrev pub raised : ℕ → ℕ → ℕ → (ℕ → Option StockBalance) → ℕ → Option StockBalance
raised p q actor f = at_key p (raise q actor (f p)) f

apply_receipt_quantity_raises :
    (p q actor : ℕ) (db : Db)
    → apply_receipt_quantity p q (some actor) db
      ≡ (ok tt, record db { balances = raised p q actor db.balances })
unfolding apply_receipt_quantity apply_read create_balance raise_balance raise_created
apply_receipt_quantity_raises p q actor db = elim (Option_cases (db.balances p)) [
  | inl new ↦ ground arith
  | inr (b, found) ↦ ground (arith, ==-refl b.version)
]

-- What a successful round has done: the item's row, which was read with room for the accepted
-- quantity, counts it, and the product's balance has risen by it.
abbrev pub Received : ℕ → List (ℕ × ExpectedReceiptItem) → ReceivedItem → Db → Db → Type 0
Received actor items given db db' =
    (item : ExpectedReceiptItem) × (accepted : ℕ) × (row : ExpectedReceiptItem) × (find_item
        given.item_id items
      ≡ some item)
    × (get_elem? db.receipt_items given.item_id ≡ some row)
    × (row.received_quantity + accepted ≤ item.quantity)
    × (0 < accepted)
    × (db'.balances ≡ raised item.product_id accepted actor db.balances)
    × (db'.receipt_items
        ≡ set db.receipt_items given.item_id
            (record row { received_quantity = row.received_quantity + accepted }))
    × (db'.reservations ≡ db.reservations)
    × (db'.receipt_events ≡ db.receipt_events)
    × (db'.receipts ≡ db.receipts)
    × (db'.orders ≡ db.orders)

positive-pos : (o : Option ℤ) (n : ℕ) → positive o ≡ some n → 0 < n
positive-pos none n e = absurd (cc)
positive-pos (some (pos zero)) n e = absurd (cc)
positive-pos (some (pos (suc k))) n e = ground arith
positive-pos (some (negsuc k)) n e = absurd (cc)

-- The database when the goods are about to be stocked.
abbrev recorded : ℕ → ReceivedItem → ExpectedReceiptItem → ℕ → ExpectedReceiptItem → Db → Db
recorded event given item accepted row db = record db {
  receipt_items =
      set db.receipt_items given.item_id
        (record row { received_quantity = row.received_quantity + accepted });
  receipt_event_items =
      db.receipt_event_items
      ++ (record {
        receipt_event_id = event;
        expected_receipt_item_id = given.item_id;
        product_id = item.product_id;
        accepted_quantity = accepted;
        rejected_quantity = or_zero given.rejected_quantity;
      }
          ∷ []);
}

receive_row :
    (actor event : ℕ) (items : List (ℕ × ExpectedReceiptItem)) (given : ReceivedItem) (db : Db)
    (item : ExpectedReceiptItem) (accepted : ℕ) (row : ExpectedReceiptItem)
    → find_item given.item_id items ≡ some item
    → positive (or_else given.accepted_quantity given.received_quantity) ≡ some accepted
    → get_elem? db.receipt_items given.item_id ≡ some row
    → let (r, db') = receive_item actor event items given db in
      ((is_ok r ≡ false) × (db'.balances ≡ db.balances) × (db'.reservations ≡ db.reservations))
      ⊎ ((r ≡ ok tt) × Received actor items given db db')
unfolding receive_item
receive_row actor event items given db item accepted row found picked there =
    let stocked =
      apply_receipt_quantity_raises item.product_id accepted actor
        (recorded event given item accepted row db) in
    elim (Bool_cases (ltb item.quantity (item.received_quantity + accepted))) [
      | inl too_many ↦ inl (ground arith)
      | inr fits ↦ elim (Bool_cases (ltb_ℤ (or_zero given.rejected_quantity) (pos 0))) [
        | inl below ↦ inl (ground arith)
        | inr fine ↦ elim (Bool_cases (leb row.received_quantity (item.quantity - accepted))) [
          | inr full ↦ inl (ground arith)
          | inl room ↦ inr (
            ground (arith, stocked),
            (
              item,
              accepted,
              row,
              found,
              there,
              ground arith,
              positive-pos _ accepted picked,
              ground (arith, stocked),
              ground (arith, stocked),
              ground (arith, stocked),
              ground (arith, stocked),
              ground (arith, stocked),
              ground (arith, stocked),
            ),
          )
        ]
      ]
    ]

pub receive_item_cases :
    (actor event : ℕ) (items : List (ℕ × ExpectedReceiptItem)) (given : ReceivedItem) (db : Db)
    → let (r, db') = receive_item actor event items given db in
      ((is_ok r ≡ false) × (db'.balances ≡ db.balances) × (db'.reservations ≡ db.reservations))
      ⊎ ((r ≡ ok tt) × Received actor items given db db')
unfolding receive_item
receive_item_cases actor event items given db =
    elim (Option_cases (find_item given.item_id items)) [
      | inl unknown ↦ inl (ground arith)
      | inr (item, found) ↦
          elim (Option_cases (positive (or_else given.accepted_quantity given.received_quantity))) [
            | inl nothing ↦ inl (ground arith)
            | inr (accepted, picked) ↦
                elim (Option_cases (get_elem? db.receipt_items given.item_id)) [
                  | inl missing ↦ inl (ground arith)
                  | inr (row, there) ↦
                      receive_row actor event items given db item accepted row found picked there
                ]
          ]
    ]
