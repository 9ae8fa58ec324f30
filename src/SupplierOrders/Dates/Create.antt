-- ===== src/SupplierOrders/Dates/Create.antt =====
-- What a created supplier order rests on.
use hpl_back.Base.{
  ℕ, ◌<◌, ◌≡◌, ◌⊎◌, refl, ap, true, false, ◌&&◌, Option, none, some, List, [], ◌∷◌, ◌++◌, arith,
  ltb, includes, any, Bool_cases, Option_cases, inl, inr,
}
use hpl_back.Domain.{FulfillmentSource, fulfillment_source_enum}
use hpl_back.Store.{Db, Deal, SupplierOrder, PanelQuote, Result, ok, is_ok}
use hpl_back.Access.{PolicyUser, Permission, permission_enum, can_read_deal}
use hpl_back.Deals.{is_value}
use hpl_back.SupplierOrders.{assert_manage_allowed}
use hpl_back.Deals.{live_deal}
use hpl_back.SupplierOrders.Dates.{
  CreateSupplierOrder, assert_timeline_dates, new_dates, quote_of_deal, is_accepted_quote,
  assert_supplier_source, assert_hpl_deal_ready_for_supplier_order, create_write, create_for_deal,
  new_supplier_order,
}
use hpl_back.SupplierOrders.Dates.Timeline.{
  IsTimeline, assert_timeline_dates_iff, assert_timeline_dates-Reads,
}

-- The deal is there, is the user's to read, draws on a supplier, and has a quote that was approved
-- inside and accepted by the client.
abbrev pub MayOrder : ℕ → CreateSupplierOrder → PolicyUser → Db → Type 0
MayOrder deal_id dto user db =
    (includes user.permissions Permission.supplier_orders_manage ≡ true)
    × IsTimeline (new_dates dto)
    × (dto.supplier_id < db.suppliers)
    × (any (λ q. quote_of_deal deal_id q && is_accepted_quote q) db.panel_quotes ≡ true)
    × ((deal : Deal) × (live_deal deal_id db ≡ some deal)
        × (can_read_deal user deal.owner_id ≡ true)
        × (is_value deal.fulfillment_source FulfillmentSource.supplier_order ≡ true))

-- Refused with nothing written, or the row of a supplier order is added.
abbrev pub CreateOutcome :
    ℕ → CreateSupplierOrder → PolicyUser → Db → Result SupplierOrder × Db → Type 0
CreateOutcome deal_id dto user db (r, db') =
    ((is_ok r ≡ false) × (db' ≡ db))
    ⊎ (MayOrder deal_id dto user db
        × (r ≡ ok (new_supplier_order deal_id dto user.id))
        × (db'.supplier_orders
            ≡ db.supplier_orders ++ (new_supplier_order deal_id dto user.id ∷ [])))

source_passes :
    (source : Option FulfillmentSource) (db : Db)
    → is_value source FulfillmentSource.supplier_order ≡ true
    → assert_supplier_source source db ≡ (ok tt, db)
unfolding assert_supplier_source
source_passes none db e = ground arith
source_passes (some FulfillmentSource.supplier_order) db e = refl
source_passes (some FulfillmentSource.warehouse_stock) db e = ground arith

quotes_pass :
    (deal_id : ℕ) (quotes : List PanelQuote)
    → any (λ q. quote_of_deal deal_id q && is_accepted_quote q) quotes ≡ true
    → any (quote_of_deal deal_id) quotes ≡ true
quotes_pass deal_id [] e = ground arith
quotes_pass deal_id (q ∷ quotes) e = ground (arith, quotes_pass deal_id quotes)

create_passes :
    (deal_id : ℕ) (dto : CreateSupplierOrder) (user : PolicyUser) (db : Db) (deal : Deal)
    → includes user.permissions Permission.supplier_orders_manage ≡ true
    → assert_timeline_dates (new_dates dto) db ≡ (ok tt, db)
    → live_deal deal_id db ≡ some deal
    → can_read_deal user deal.owner_id ≡ true
    → is_value deal.fulfillment_source FulfillmentSource.supplier_order ≡ true
    → any (λ q. quote_of_deal deal_id q && is_accepted_quote q) db.panel_quotes ≡ true
    → ltb dto.supplier_id db.suppliers ≡ true
    → ((create_for_deal deal_id dto user db).0 ≡ ok (new_supplier_order deal_id dto user.id))
      × ((create_for_deal deal_id dto user db).1.supplier_orders
          ≡ db.supplier_orders ++ (new_supplier_order deal_id dto user.id ∷ []))
unfolding create_for_deal assert_manage_allowed assert_hpl_deal_ready_for_supplier_order
    create_write
create_passes deal_id dto user db deal managed timely found readable source quoted known =
    let some_quote = quotes_pass deal_id db.panel_quotes quoted in
    let source_ok = source_passes deal.fulfillment_source db source in
    let timely0 = ap (λ y. y.0) timely in
    let timely1 = ap (λ y. y.1) timely in
    let source0 = ap (λ y. y.0) source_ok in
    let source1 = ap (λ y. y.1) source_ok in (ground arith, ground arith)

-- createForDeal either throws with nothing written, or it returns the new supplier order and has
-- added its row and no other; then the user may manage supplier orders, the dates are in order, the
-- supplier exists, the deal is undeleted, readable by the user and set to supplier orders, and it
-- has a quote that is approved or converted and that the client accepted.
pub create_for_deal_outcome :
    (deal_id : ℕ) (dto : CreateSupplierOrder) (user : PolicyUser) (db : Db)
    → CreateOutcome deal_id dto user db (create_for_deal deal_id dto user db)
unfolding create_for_deal assert_manage_allowed assert_supplier_source
    assert_hpl_deal_ready_for_supplier_order create_write
create_for_deal_outcome deal_id dto user db =
    elim (Bool_cases (includes user.permissions Permission.supplier_orders_manage)) [
      | inr refused ↦ inl (ground arith, ground arith)
      | inl managed ↦ elim (assert_timeline_dates-Reads (new_dates dto) db) [
        | inl (fails, same_db) ↦ inl (ground arith, ground arith)
        | inr (unit, timely) ↦ elim (Option_cases (live_deal deal_id db)) [
          | inl missing ↦ inl (ground arith, ground arith)
          | inr (deal, found) ↦ elim (Bool_cases (can_read_deal user deal.owner_id)) [
            | inr hidden ↦ inl (ground arith, ground arith)
            | inl readable ↦
                elim (Bool_cases
                  (is_value deal.fulfillment_source FulfillmentSource.supplier_order)) [
                    | inr elsewhere ↦ inl (ground arith, ground arith)
                    | inl source ↦
                        elim (Bool_cases (
                          any (λ q. quote_of_deal deal_id q && is_accepted_quote q)
                            db.panel_quotes)) [
                              | inr unquoted ↦ inl (ground arith, ground arith)
                              | inl quoted ↦ elim (Bool_cases (ltb dto.supplier_id db.suppliers)) [
                                | inr unknown ↦ inl (ground arith, ground arith)
                                | inl known ↦ inr (
                                  (
                                    managed,
                                    (assert_timeline_dates_iff (new_dates dto) db).0 timely,
                                    ground arith,
                                    quoted,
                                    (deal, found, readable, source),
                                  ),
                                  (create_passes deal_id dto user db deal managed timely found
                                      readable source quoted known).0,
                                  (create_passes deal_id dto user db deal managed timely found
                                      readable source quoted known).1,
                                )
                              ]
                            ]
                  ]
          ]
        ]
      ]
    ]
