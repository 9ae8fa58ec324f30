-- ===== src/Orders/Deliveries/Items.antt =====
-- The rows that a delivery names: a repeated name shows in that fewer rows are found than there are entries.
use hpl_back.Base.{
  ℕ, zero, suc, ◌+◌, ◌≤◌, ◌<◌, ◌≡◌, ◌⊎◌, refl, ap, ◌∙◌, false, ◌&&◌, some, List, [], ◌∷◌, arith,
  if◌then◌else◌, ◌==◌, ltb, length, get_elem?, All, Bool_cases, Option_cases, inl, inr,
}
use hpl_back.Store.{Db, OrderItem, ok, is_ok}
use hpl_back.Inventory.Stock.{ReserveStockItem}
use hpl_back.Orders.Deliveries.{
  CreateDeliveryItem, named, items_in, find_order_item, stock_item, stock_items,
}

-- How often the request names a row.
abbrev pub times : ℕ → List CreateDeliveryItem → ℕ
times k [] = 0
times k (e ∷ es) = (if e.order_item_id == k then 1 else 0) + times k es

-- How often it names the rows from id `i` on.
abbrev times_all : ℕ → List OrderItem → List CreateDeliveryItem → ℕ
times_all i [] items = 0
times_all i (r ∷ rows) items = times i items + times_all (suc i) rows items

-- One entry names one row at most, and none before its own id.
one_row :
    (i : ℕ) (rows : List OrderItem) (e : CreateDeliveryItem)
    → times_all i rows (e ∷ []) ≤ (if ltb e.order_item_id i then 0 else 1)
one_row i [] e = omega arith
one_row i (r ∷ rows) e = ground (arith, one_row (suc i) rows e)

times_all-cons :
    (i : ℕ) (rows : List OrderItem) (e : CreateDeliveryItem) (es : List CreateDeliveryItem)
    → times_all i rows (e ∷ es) ≡ times_all i rows (e ∷ []) + times_all i rows es
times_all-cons i [] e es = refl
times_all-cons i (r ∷ rows) e es = ground (arith, times_all-cons (suc i) rows e es)

times_all-nil : (i : ℕ) (rows : List OrderItem) → times_all i rows [] ≡ 0
times_all-nil i [] = refl
times_all-nil i (r ∷ rows) = omega (arith, times_all-nil (suc i) rows)

times_all-bound :
    (i : ℕ) (rows : List OrderItem) (items : List CreateDeliveryItem)
    → times_all i rows items ≤ length items
times_all-bound i rows [] = omega (arith, times_all-nil i rows)
times_all-bound i rows (e ∷ es) =
    ground (arith, times_all-cons i rows e es, one_row i rows e, times_all-bound i rows es)

times-named :
    (k : ℕ) (items : List CreateDeliveryItem) → (if named k items then 1 else 0) ≤ times k items
times-named k [] = omega arith
times-named k (e ∷ es) = ground (arith, times-named k es)

found_bound :
    (i order : ℕ) (items : List CreateDeliveryItem) (rows : List OrderItem)
    → length (items_in i order items rows) ≤ times_all i rows items
unfolding items_in
found_bound i order items [] = omega arith
found_bound i order items (r ∷ rows) =
    ground (arith, times-named i items, found_bound (suc i) order items rows)

-- A row that is named twice makes the selection too short.
found_short :
    (i order j n : ℕ) (items : List CreateDeliveryItem) (rows : List OrderItem)
    → n ≡ i + j
    → j < length rows
    → 1 < times n items
    → length (items_in i order items rows) < times_all i rows items
unfolding items_in
found_short i order j n items [] at inside twice = ground arith
found_short i order zero n items (r ∷ rows) at inside twice =
    let here : times n items ≡ times i items = ap (λ m. times m items) (omega arith) in
    ground (arith, found_bound (suc i) order items rows)
found_short i order (suc j) n items (r ∷ rows) at inside twice = ground (
  arith,
  times-named i items,
  found_short (suc i) order j n items rows (omega arith) (omega arith) twice,
)

pub named_once :
    (order j : ℕ) (items : List CreateDeliveryItem) (rows : List OrderItem)
    → length (items_in 0 order items rows) ≡ length items
    → j < length rows
    → times j items ≤ 1
named_once order j items rows all_found inside = elim (Bool_cases (ltb 1 (times j items))) [
  | inl twice ↦ absurd (
      omega (
        arith,
        found_short 0 order j j items rows (omega arith) inside (ground arith),
        times_all-bound 0 rows items,
      ))
  | inr once ↦ ground arith
]

-- What a selected row is, it is in the table.
find_items_in :
    (i order k : ℕ) (items : List CreateDeliveryItem) (rows : List OrderItem) (r : OrderItem)
    → find_order_item k (items_in i order items rows) ≡ some r
    → (j : ℕ) × (k ≡ i + j) × (get_elem? rows j ≡ some r)
unfolding items_in find_order_item
find_items_in i order k items [] r found = absurd (cc)
find_items_in i order k items (x ∷ rows) r found =
    elim (Bool_cases (x.order_id == order && named i items)) [
      | inr other ↦
          let (j, at, here) = find_items_in (suc i) order k items rows r (ground arith) in
          (suc j, omega arith, here)
      | inl chosen ↦ elim (Bool_cases (i == k)) [
        | inl this ↦ (zero, ground arith, ground arith)
        | inr later ↦
            let (j, at, here) = find_items_in (suc i) order k items rows r (ground arith) in
            (suc j, omega arith, here)
      ]
    ]

pub found_row :
    (order k : ℕ) (items : List CreateDeliveryItem) (rows : List OrderItem) (r : OrderItem)
    → find_order_item k (items_in 0 order items rows) ≡ some r
    → get_elem? rows k ≡ some r
found_row order k items rows r found =
    let (j, at, here) = find_items_in 0 order k items rows r found in
    ap (λ n. get_elem? rows n) (at ∙ zero_add j) ∙ here
  where
    zero_add : (n : ℕ) → 0 + n ≡ n
    zero_add n = omega arith

-- An entry's quantity fits into what its row has left.
abbrev pub Fits : List (ℕ × OrderItem) → CreateDeliveryItem → Type 0
Fits rows e =
    (r : OrderItem) × (find_order_item e.order_item_id rows ≡ some r)
    × (r.delivered_quantity + e.quantity ≤ r.quantity)

pub stock_items-Reads :
    (rows : List (ℕ × OrderItem)) (items : List CreateDeliveryItem) (db : Db)
    → ((is_ok (stock_items rows items db).0 ≡ false) × ((stock_items rows items db).1 ≡ db))
      ⊎ ((s : List ReserveStockItem) × (stock_items rows items db ≡ (ok s, db))
          × All (Fits rows) items)
unfolding stock_items
stock_items-Reads rows [] db = inr ([], refl, tt)
stock_items-Reads rows (e ∷ es) db = elim (Option_cases (find_order_item e.order_item_id rows)) [
  | inl missing ↦ inl (ground arith, ground arith)
  | inr (r, found) ↦ elim (Bool_cases (ltb r.quantity (e.quantity + r.delivered_quantity))) [
    | inl exceeds ↦ inl (ground arith, ground arith)
    | inr within ↦ elim (stock_items-Reads rows es db) [
      | inl (fails, same_db) ↦ inl (ground arith, ground arith)
      | inr (s, e', fit) ↦
          let e0 = ap (λ y. y.0) e' in
          let e1 = ap (λ y. y.1) e' in
          inr (stock_item r e ∷ s, ground arith, ((r, found, ground arith), fit))
    ]
  ]
]
