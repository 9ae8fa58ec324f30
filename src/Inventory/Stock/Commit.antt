-- ===== src/Inventory/Stock/Commit.antt =====
-- What `commitReservation` does: the shipped quantities leave `onHand` and the order's reservations.
use hpl_back.Base.{
  ℕ, ◌+◌, ◌-◌, ◌≡◌, ◌≤◌, refl, sym, ◌∙◌, true, false, List, [], ◌∷◌, arith, Option, none, ==-refl,
  Bool_cases, Option_cases, inl, inr, ◌⊎◌, some, select_from, select-Snapshot, ltb, ℤ, pos, ◌+ℤ◌,
  ◌-ℤ◌, +ℤ_parts, -ℤ_parts, eq_of_parts, pos_part,
}
use hpl_back.Store.{Db, StockBalance, ok, is_ok, for_each, for_each-cons, for_each_stops, at_key}
use hpl_back.Inventory.Stock.{
  ReserveStockItem, commit_write, commit_one, commit_reservation, aggregate_items, active_for,
}
use hpl_back.Inventory.Stock.Balanced.{
  active, active_by, Balanced, free, has_balance, wanted, requested, mentions,
}
use hpl_back.Inventory.Stock.Aggregate.{requested-aggregate_items, mentions-aggregate_items}
use hpl_back.Inventory.Stock.Consume.{consume_lem, sum_sel-active_for, active_by-le-active}

abbrev pub stock_of : Option StockBalance → ℕ
stock_of none = 0
stock_of (some b) = pos_part b.on_hand

-- What is physically on hand.
abbrev pub stock : ℕ → Db → ℕ
stock p db = stock_of (db.balances p)

abbrev committed_balance : ℕ → ReserveStockItem → StockBalance → StockBalance
committed_balance order i b = record b {
  on_hand = b.on_hand -ℤ pos i.quantity;
  reserved = b.reserved -ℤ pos i.quantity;
  updated_by = some order;
  version = b.version + 1;
}

-- What one product's commit has moved.
abbrev Moved : ℕ → ReserveStockItem → Db → Db → Type 0
Moved order i db db' =
    (p : ℕ)
    → (active p db'.reservations + wanted p i ≡ active p db.reservations)
      × (stock p db' + wanted p i ≡ stock p db)
      × (free p db' ≡ free p db)
      × (active_by order p db'.reservations + wanted p i ≡ active_by order p db.reservations)
      × (has_balance p db' ≡ has_balance p db)

module _ (actor : Option ℕ) (order : ℕ) (i : ReserveStockItem) (db : Db) where
  commit_one_short :
      ltb (active_by order i.product_id db.reservations) i.quantity ≡ true
      → (is_ok (commit_one actor order i db).0 ≡ false) × ((commit_one actor order i db).1 ≡ db)
  unfolding commit_one
  commit_one_short short = ground (arith, sum_sel-active_for order i.product_id db.reservations)

  commit_one_unknown :
      db.balances i.product_id ≡ none
      → (is_ok (commit_one actor order i db).0 ≡ false) × ((commit_one actor order i db).1 ≡ db)
  unfolding commit_one
  commit_one_unknown none_there = ground arith

  commit_one_goes :
      (b : StockBalance)
      → db.balances i.product_id ≡ some b
      → ltb (active_by order i.product_id db.reservations) i.quantity ≡ false
      → Balanced db
      → let db' = (commit_one actor order i db).1 in
        ((commit_one actor order i db).0 ≡ ok tt) × Balanced db' × Moved order i db db'
  unfolding commit_one commit_write
  commit_one_goes b found enough h =
      let p = i.product_id in
      let q : ℤ = pos i.quantity in
      let sel = select_from 0 (active_for order p) db.reservations in
      let db1 = record db { balances = at_key p (committed_balance order i b) db.balances } in
      let used =
        consume_lem order p sel i.quantity db1
          (select-Snapshot (active_for order p) db.reservations)
          (ground (arith, sum_sel-active_for order p db.reservations)) in
      let sums = sum_sel-active_for order p db.reservations in
      let small = active_by-le-active order p db.reservations in
      let whole = +ℤ_parts b.available b.reserved in
      (
        ground (arith, h p, ==-refl b.version),
        λ p'. ground (
          arith,
          h p,
          h p',
          used.2 p',
          ==-refl b.version,
          -ℤ_parts b.on_hand q,
          -ℤ_parts b.reserved q,
          +ℤ_parts b.available (b.reserved -ℤ q),
          eq_of_parts (b.available +ℤ (b.reserved -ℤ q)) (b.on_hand -ℤ q),
          eq_of_parts (b.reserved -ℤ q) (pos (active p db.reservations - i.quantity)),
        ),
        λ p'. ground (
          arith,
          h p,
          used.2 p',
          used.3 order p',
          ==-refl b.version,
          ==-refl order,
          -ℤ_parts b.on_hand q,
        ),
      )

-- A commit of one product: nothing happens and it throws, or it goes through.
commit_one_cases :
    (actor : Option ℕ) (order : ℕ) (i : ReserveStockItem) (db : Db)
    → Balanced db
    → let (r, db') = commit_one actor order i db in
      ((is_ok r ≡ false) × (db' ≡ db))
      ⊎ ((r ≡ ok tt) × Balanced db' × Moved order i db db' × (has_balance i.product_id db ≡ true))
commit_one_cases actor order i db h = elim (Option_cases (db.balances i.product_id)) [
  | inl none_there ↦ inl (commit_one_unknown actor order i db none_there)
  | inr (b, found) ↦
      elim (Bool_cases (ltb (active_by order i.product_id db.reservations) i.quantity)) [
        | inl short ↦ inl (commit_one_short actor order i db short)
        | inr enough ↦
            let all = commit_one_goes actor order i db b found enough h in
            inr (all.0, all.1, all.2, ground arith)
      ]
]

-- What a list of commits has moved.
abbrev pub AllMoved : ℕ → List ReserveStockItem → Db → Db → Type 0
AllMoved order items db db' =
    (p : ℕ)
    → (active p db'.reservations + requested p items ≡ active p db.reservations)
      × (stock p db' + requested p items ≡ stock p db)
      × (free p db' ≡ free p db)
      × (active_by order p db'.reservations + requested p items ≡ active_by order p db.reservations)

commit_loop_lem :
    (actor : Option ℕ) (order : ℕ) (items : List ReserveStockItem) (db : Db)
    → Balanced db
    → let (r, db') = for_each (commit_one actor order) items db in
      Balanced db' × (is_ok r ≡ true → AllMoved order items db db')
commit_loop_lem actor order [] db h = (h, λ e p. (omega arith, omega arith, refl, omega arith))
commit_loop_lem actor order (i ∷ is) db h =
    let db' = (commit_one actor order i db).1 in
    elim (commit_one_cases actor order i db h) [
      | inl failed ↦
          let stopped = for_each_stops (commit_one actor order) i is db failed.0 in
          (rw (stopped.1, failed.1) h, λ e. absurd (cc stopped.0))
      | inr went ↦
          let later = commit_loop_lem actor order is db' went.1 in
          rw (for_each-cons (commit_one actor order) i is db went.0)
            (later.0, λ e p. omega (arith, went.2 p, later.1 e p))
    ]

commit_loop_succeeds :
    (actor : Option ℕ) (order : ℕ) (items : List ReserveStockItem) (db : Db)
    → Balanced db
    → ((p : ℕ) → mentions p items ≡ true → has_balance p db ≡ true)
    → ((p : ℕ) → requested p items ≤ active_by order p db.reservations)
    → is_ok (for_each (commit_one actor order) items db).0 ≡ true
commit_loop_succeeds actor order [] db h known enough = refl
commit_loop_succeeds actor order (i ∷ is) db h known enough =
    let db' = (commit_one actor order i db).1 in
    let there : has_balance i.product_id db ≡ true =
      known i.product_id (ground (arith, ==-refl i.product_id)) in
    let fits : ltb (active_by order i.product_id db.reservations) i.quantity ≡ false =
      ground (arith, enough i.product_id, ==-refl i.product_id) in
    elim (Option_cases (db.balances i.product_id)) [
      | inl none_there ↦ absurd (ground arith)
      | inr (b, found) ↦
          let went = commit_one_goes actor order i db b found fits h in
          rw (for_each-cons (commit_one actor order) i is db went.0) (
            commit_loop_succeeds actor order is db' went.1
              (λ p m. ground (arith, known p, went.2 p)) (λ p. ground (arith, enough p, went.2 p)))
    ]

-- commitReservation keeps the balance invariant on every outcome; when it returns, each product's
-- on-hand stock, active total and the order's own active total have fallen by what the items ask of
-- it, and what is available is unchanged.
pub commit_reservation_moves :
    (order : ℕ) (items : List ReserveStockItem) (actor : Option ℕ) (db : Db)
    → Balanced db
    → let (r, db') = commit_reservation order items actor db in
      Balanced db' × (is_ok r ≡ true → AllMoved order items db db')
unfolding commit_reservation
commit_reservation_moves order items actor db h =
    let all = commit_loop_lem actor order (aggregate_items items) db h in
    (all.0, λ e p. omega (arith, all.1 e p, requested-aggregate_items p items))

-- In a balanced database commitReservation returns if every product named has a balance and the
-- order's own active reservations cover the total asked of each product.
pub commit_reservation_succeeds :
    (order : ℕ) (items : List ReserveStockItem) (actor : Option ℕ) (db : Db)
    → Balanced db
    → ((p : ℕ) → mentions p items ≡ true → has_balance p db ≡ true)
    → ((p : ℕ) → requested p items ≤ active_by order p db.reservations)
    → is_ok (commit_reservation order items actor db).0 ≡ true
unfolding commit_reservation
commit_reservation_succeeds order items actor db h known enough =
    commit_loop_succeeds actor order (aggregate_items items) db h
      (λ p m. known p (sym (mentions-aggregate_items p items) ∙ m))
      (λ p. omega (arith, enough p, requested-aggregate_items p items))
