-- ===== src/Inventory/Receiving/Goods.antt =====
-- The receipt rows: what is received of an item never exceeds what was ordered, and the stock grows by
-- just what the rows count as received.
use hpl_back.Base.{
  ℕ, ◌+◌, ◌≡◌, ◌≤◌, refl, sym, ◌∙◌, Bool, true, some, List, [], ◌∷◌, arith, if◌then◌else◌, ◌==◌,
  Option_cases, inl, inr, pos, ◌+ℤ◌, get_elem?, set, +ℤ_parts, eq_of_parts, sum_by, sum_by-set,
  Snapshot, select-Snapshot, select_from, All, All-set, get_elem?-set_self, get_elem?-set_ne,
  get_elem?-bound,
}
use mathlib.Core.Option.{some-injective}
use native.Mathlib.Decide.{ℕ_discrete}
use hpl_back.Store.{Db, ExpectedReceiptItem, is_ok, for_each, for_each-cons, for_each_stops}
use hpl_back.Inventory.Receipts.{find_item}
use hpl_back.Inventory.Receiving.{ReceivedItem, receive_item}
use hpl_back.Inventory.Receiving.Item.{raised, receive_item_cases}
use hpl_back.Inventory.Stock.Balanced.{Balanced}
use hpl_back.Inventory.Stock.Commit.{stock}

abbrev pub IsWithin : ExpectedReceiptItem → Type 0
IsWithin i = i.received_quantity ≤ i.quantity

-- No item has more received than ordered.
abbrev pub Within : Db → Type 0
Within db = All IsWithin db.receipt_items

abbrev received_of : ℕ → ExpectedReceiptItem → ℕ
received_of p i = if i.product_id == p then i.received_quantity else 0

-- The total that the receipt rows count as received of a product.
unfoldable pub received : ℕ → List ExpectedReceiptItem → ℕ
received p rows = sum_by (received_of p) rows

-- The rows that were read before the loop still have their products and quantities.
abbrev Aligned : List (ℕ × ExpectedReceiptItem) → List ExpectedReceiptItem → Type 0
Aligned items rows =
    (k : ℕ) (i : ExpectedReceiptItem)
    → find_item k items ≡ some i
    → (j : ExpectedReceiptItem) × (get_elem? rows k ≡ some j)
      × (j.product_id ≡ i.product_id)
      × (j.quantity ≡ i.quantity)

Snapshot-find :
    (test : ExpectedReceiptItem → Bool) (rows : List ExpectedReceiptItem)
    (sel : List (ℕ × ExpectedReceiptItem)) (k : ℕ) (i : ExpectedReceiptItem)
    → Snapshot test rows sel
    → find_item k sel ≡ some i
    → get_elem? rows k ≡ some i
Snapshot-find test rows [] k i s e = absurd (cc)
Snapshot-find test rows ((j, r) ∷ sel) k i s e =
    ground (arith, s.0, Snapshot-find test rows sel k i s.3)

Aligned-start :
    (test : ExpectedReceiptItem → Bool) (rows : List ExpectedReceiptItem)
    → Aligned (select_from 0 test rows) rows
Aligned-start test rows k i e = (
  i,
  Snapshot-find test rows (select_from 0 test rows) k i (select-Snapshot test rows) e,
  refl,
  refl,
)

Aligned-set :
    (items : List (ℕ × ExpectedReceiptItem)) (rows : List ExpectedReceiptItem) (k n : ℕ)
    (row : ExpectedReceiptItem)
    → get_elem? rows k ≡ some row
    → Aligned items rows
    → Aligned items (set rows k (record row { received_quantity = n }))
Aligned-set items rows k n row there a j i e =
    let row' = record row { received_quantity = n } in
    let (old, at, p, q) = a j i e in
    elim (ℕ_discrete k j) [
      | yes here ↦ (
        row',
        rw (← here) (get_elem?-set_self rows k row' (get_elem?-bound rows k there)),
        ground arith,
        ground arith,
      )
      | no other ↦ (old, get_elem?-set_ne rows k j row' other ∙ at, p, q)
    ]

received-set :
    (p : ℕ) (rows : List ExpectedReceiptItem) (k n : ℕ) (row : ExpectedReceiptItem)
    → get_elem? rows k ≡ some row
    → received p (set rows k (record row { received_quantity = row.received_quantity + n }))
      ≡ received p rows + (if row.product_id == p then n else 0)
unfolding received
received-set p rows k n row e = ground (
  arith,
  sum_by-set (received_of p) rows k row
      (record row { received_quantity = row.received_quantity + n }) e,
)

stock-raised :
    (p p' q actor : ℕ) (db db' : Db)
    → Balanced db
    → db'.balances ≡ raised p q actor db.balances
    → stock p' db' ≡ stock p' db + (if p == p' then q else 0)
stock-raised p p' q actor db db' h e = elim (Option_cases (db.balances p)) [
  | inl new ↦ rw e (ground arith)
  | inr (b, found) ↦
      rw e (ground (arith, h p, +ℤ_parts b.available b.reserved, +ℤ_parts b.on_hand (pos q)))
]

Balanced-raised :
    (p q actor : ℕ) (db db' : Db)
    → Balanced db
    → db'.balances ≡ raised p q actor db.balances
    → db'.reservations ≡ db.reservations
    → Balanced db'
Balanced-raised p q actor db db' h e same_rows p' =
    rw (e, same_rows)
      (elim (Option_cases (db.balances p)) [
        | inl new ↦
            ground
              (arith, h p, h p', +ℤ_parts (pos q) (pos 0), eq_of_parts (pos q +ℤ pos 0) (pos q))
        | inr (b, found) ↦ ground (
          arith,
          h p,
          h p',
          +ℤ_parts b.available b.reserved,
          +ℤ_parts b.available (pos q),
          +ℤ_parts b.on_hand (pos q),
          +ℤ_parts (b.available +ℤ pos q) b.reserved,
          eq_of_parts (b.available +ℤ pos q +ℤ b.reserved) (b.on_hand +ℤ pos q),
        )
      ])

-- What the rounds have done together.
abbrev pub Gained : Db → Db → Type 0
Gained db db' =
    (p : ℕ) → stock p db' + received p db.receipt_items ≡ stock p db + received p db'.receipt_items

receive_loop_lem :
    (actor event : ℕ) (items : List (ℕ × ExpectedReceiptItem)) (given : List ReceivedItem) (db : Db)
    → Balanced db
    → Within db
    → Aligned items db.receipt_items
    → let (r, db') = for_each (receive_item actor event items) given db in
      Balanced db'
      × (is_ok r ≡ true
          → Within db'
            × Gained db db'
            × (db'.receipt_events ≡ db.receipt_events)
            × (db'.receipts ≡ db.receipts))
receive_loop_lem actor event items [] db h w a = (h, λ e. (w, (λ p. refl), refl, refl))
receive_loop_lem actor event items (g ∷ gs) db h w a =
    let step = receive_item actor event items in
    let db1 = (step g db).1 in
    elim (receive_item_cases actor event items g db) [
      | inl (failed, same_balances, same_rows) ↦
          let stopped = for_each_stops step g gs db failed in
          (λ p. rw (stopped.1, same_balances, same_rows) (h p), λ e. absurd (cc stopped.0))
      | inr
            (
              went,
              (
                item, n, row, found, there, room, more, balances, rows, reservations, events,
                receipts, orders,
              ),
            ) ↦
          let (old, at, same_product, same_quantity) = a g.item_id item found in
          let same_row : old ≡ row = some-injective old row (sym at ∙ there) in
          let row' = record row { received_quantity = row.received_quantity + n } in
          let h1 = Balanced-raised item.product_id n actor db db1 h balances reservations in
          let w1 : Within db1 =
            rw rows (All-set IsWithin db.receipt_items g.item_id row' w (ground arith)) in
          let a1 : Aligned items db1.receipt_items = rw rows (
            Aligned-set items db.receipt_items g.item_id (row.received_quantity + n) row there a) in
          let later = receive_loop_lem actor event items gs db1 h1 w1 a1 in
          rw (for_each-cons step g gs db went) (
            later.0,
            λ e.
                let all = later.1 e in
                (
                  all.0,
                  λ p. ground (
                    arith,
                    all.1 p,
                    rows,
                    same_row,
                    same_product,
                    stock-raised item.product_id p n actor db db1 h balances,
                    received-set p db.receipt_items g.item_id n row there,
                  ),
                  all.2 ∙ events,
                  all.3 ∙ receipts,
                ),
          )
    ]

pub receive_loop_start :
    (actor event : ℕ) (test : ExpectedReceiptItem → Bool) (given : List ReceivedItem) (db : Db)
    → Balanced db
    → Within db
    → let (r, db') =
        for_each (receive_item actor event (select_from 0 test db.receipt_items)) given db in
      Balanced db'
      × (is_ok r ≡ true
          → Within db'
            × Gained db db'
            × (db'.receipt_events ≡ db.receipt_events)
            × (db'.receipts ≡ db.receipts))
receive_loop_start actor event test given db h w =
    receive_loop_lem actor event (select_from 0 test db.receipt_items) given db h w
      (Aligned-start test db.receipt_items)
