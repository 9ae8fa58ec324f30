-- ===== src/Orders/Tests.antt =====
-- A confirmed order with three reserved pieces is cancelled.
use hpl_back.Base.{
  refl, inr, zero, suc, false, none, some, [], ◌∷◌, arith, if◌then◌else◌, ◌==◌, pos, ◌+ℤ◌,
}
use hpl_back.Domain.{
  RoleName, DealStage, OrderStatus, PaymentStatus, PaymentRecordStatus, StockReservationStatus,
}
use hpl_back.Store.{Db, Order, empty_db}
use hpl_back.Access.{PolicyUser, Permission}
use hpl_back.Inventory.Stock.Balanced.{Balanced, active}
use hpl_back.Orders.{add_payment, cancel_order, calculate_payment_status}
use hpl_back.Orders.Closed.{Refused, closed_orders_refuse}
use hpl_back.Orders.Deliveries.{CreateDelivery, create_delivery}
use hpl_back.Orders.Deliveries.Within.{Within}
use hpl_back.Orders.Deliveries.Outcome.{DeliveryOutcome, create_delivery_outcome}
use hpl_back.Orders.Payments.{confirm_payment}
use hpl_back.Orders.Payments.Accounted.{Accounted}
use hpl_back.Orders.Payments.Answer.{PaymentOutcome, confirm_payment_outcome}
use hpl_back.Orders.Cancel.{CancelOutcome, cancel_order_frees}

abbrev head : PolicyUser
head = record { id = 1; roles = RoleName.head ∷ []; permissions = [] }

abbrev shop : Db
shop = record empty_db {
  now = 200;
  balances = λ p.
      if p == 5
      then some (record {
        on_hand = pos 10;
        reserved = pos 3;
        available = pos 7;
        version = 4;
        updated_by = none;
      })
      else none;
  reservations =
      record {
        product_id = 5;
        order_id = 0;
        quantity = 3;
        status = StockReservationStatus.active;
        expires_at = some 900;
      }
      ∷ [];
  deals =
      record {
        owner_id = 2;
        stage = DealStage.won;
        completed_at = none;
        deleted = false;
        fulfillment_source = none;
        installation_required = none;
        total_amount = 500;
        items = [];
      }
      ∷ [];
  orders =
      record {
        deal_id = 0;
        status = OrderStatus.confirmed;
        payment_status = PaymentStatus.unpaid;
        total_amount = 500;
        paid_amount = 0;
        remaining_amount = 500;
        deleted = false;
        version = 0;
        created_at = 0;
      }
      ∷ [];
}

shop-Balanced : Balanced shop
unfolding active ◌+ℤ◌
shop-Balanced p = ground arith

cancel_order_frees_example : CancelOutcome 0 shop (cancel_order 0 head shop)
cancel_order_frees_example = cancel_order_frees 0 head shop shop-Balanced

-- The same order with a pending payment of another user.
abbrev accountant : PolicyUser
accountant = record {
  id = 1;
  roles = RoleName.accountant ∷ [];
  permissions = Permission.payments_confirm ∷ [];
}

abbrev owed : Db
owed = record shop {
  payments =
      record { order_id = 0; amount = 200; status = PaymentRecordStatus.pending; created_by_id = 2 }
      ∷ [];
}

owed-Accounted : Accounted owed
unfolding calculate_payment_status
owed-Accounted zero o found = ground arith
owed-Accounted (suc k) o found = ground arith

confirm_payment_outcome_example :
    PaymentOutcome 0 PaymentRecordStatus.confirmed accountant owed
      (confirm_payment 0 PaymentRecordStatus.confirmed accountant owed)
confirm_payment_outcome_example =
    confirm_payment_outcome 0 PaymentRecordStatus.confirmed accountant owed owed-Accounted

-- The order is paid, and one of its items has two pieces left to deliver.
abbrev sold : Db
sold = record shop {
  orders =
      record {
        deal_id = 0;
        status = OrderStatus.confirmed;
        payment_status = PaymentStatus.paid;
        total_amount = 500;
        paid_amount = 500;
        remaining_amount = 0;
        deleted = false;
        version = 0;
        created_at = 0;
      }
      ∷ [];
  order_items =
      record {
        order_id = 0;
        product_id = 5;
        quantity = 3;
        reserved_quantity = 3;
        delivered_quantity = 1;
        unit_price = 100;
        total_price = 300;
      }
      ∷ [];
}

sold-Within : Within sold
sold-Within zero r found = ground arith
sold-Within (suc k) r found = ground arith

abbrev two_pieces : CreateDelivery
two_pieces = record { order_id = 0; items = record { order_item_id = 0; quantity = 2 } ∷ [] }

create_delivery_outcome_example : DeliveryOutcome 0 sold (create_delivery two_pieces head sold)
create_delivery_outcome_example = create_delivery_outcome two_pieces head sold sold-Within

-- The order is completed.
abbrev over : Order
over = record {
  deal_id = 0;
  status = OrderStatus.completed;
  payment_status = PaymentStatus.paid;
  total_amount = 500;
  paid_amount = 500;
  remaining_amount = 0;
  deleted = false;
  version = 3;
  created_at = 0;
}

abbrev closed_shop : Db
closed_shop = record shop { orders = over ∷ [] }

closed_orders_refuse_example :
    Refused (add_payment 0 100 head) closed_shop
    × Refused (create_delivery two_pieces head) closed_shop
    × Refused (cancel_order 0 head) closed_shop
closed_orders_refuse_example =
    closed_orders_refuse 0 100 two_pieces over head closed_shop refl refl (inr (inr refl))
