-- ===== src/SupplierOrders/Table.antt =====
-- The status table against a rule: before the goods leave, an order goes forward or is cancelled; then it
-- is shipped, and then delivered.
use hpl_back.Base.{
  ℕ, ◌≤◌, ◌<◌, ◌≡◌, ◌⊎◌, ◌↔◌, refl, sym, ap, ◌∙◌, Bool, true, arith, if◌then◌else◌, ◌==◌, same,
  includes, inl, inr, Bool_cases,
}
use hpl_back.Domain.{
  SupplierOrderStatus, supplier_order_status_enum, supplier_order_status_position,
}
use hpl_back.SupplierOrders.{supplier_order_status_transitions}

-- The stages before the goods leave are numbered from 0 (draft) to 3 (ready for shipment).
abbrev pub ready : ℕ
ready = 3

pub data Move (s t : SupplierOrderStatus) : Type 0 where
  forward :
      supplier_order_status_position s < supplier_order_status_position t
      → supplier_order_status_position t ≤ ready
      → Move s t
  ship : s ≡ SupplierOrderStatus.ready_for_shipment → t ≡ SupplierOrderStatus.shipped → Move s t
  deliver : s ≡ SupplierOrderStatus.shipped → t ≡ SupplierOrderStatus.delivered → Move s t
  cancel : supplier_order_status_position s ≤ ready → t ≡ SupplierOrderStatus.cancelled → Move s t

abbrev allowed : SupplierOrderStatus → SupplierOrderStatus → Bool
allowed s t = includes (supplier_order_status_transitions s) t

forward_allowed :
    (s t : SupplierOrderStatus)
    → supplier_order_status_position s < supplier_order_status_position t
    → supplier_order_status_position t ≤ ready
    → allowed s t ≡ true
unfolding supplier_order_status_transitions
forward_allowed SupplierOrderStatus.draft t up within = ground arith
forward_allowed SupplierOrderStatus.sent_to_production t up within = ground arith
forward_allowed SupplierOrderStatus.in_production t up within = ground arith
forward_allowed SupplierOrderStatus.ready_for_shipment t up within = ground arith
forward_allowed SupplierOrderStatus.shipped t up within = ground arith
forward_allowed SupplierOrderStatus.delivered t up within = ground arith
forward_allowed SupplierOrderStatus.cancelled t up within = ground arith

cancel_allowed :
    (s : SupplierOrderStatus)
    → supplier_order_status_position s ≤ ready
    → allowed s SupplierOrderStatus.cancelled ≡ true
unfolding supplier_order_status_transitions
cancel_allowed SupplierOrderStatus.draft early = ground arith
cancel_allowed SupplierOrderStatus.sent_to_production early = ground arith
cancel_allowed SupplierOrderStatus.in_production early = ground arith
cancel_allowed SupplierOrderStatus.ready_for_shipment early = ground arith
cancel_allowed SupplierOrderStatus.shipped early = ground arith
cancel_allowed SupplierOrderStatus.delivered early = ground arith
cancel_allowed SupplierOrderStatus.cancelled early = ground arith

Move-allowed : (s t : SupplierOrderStatus) → Move s t → allowed s t ≡ true
unfolding supplier_order_status_transitions
Move-allowed s t (Move.forward up within) = forward_allowed s t up within
Move-allowed s t (Move.ship e f) = rw (e, f)
Move-allowed s t (Move.deliver e f) = rw (e, f)
Move-allowed s t (Move.cancel early f) = rw f (cancel_allowed s early)

status_of : ℕ → SupplierOrderStatus
status_of n =
    if n == 0
    then SupplierOrderStatus.draft
    else if n == 1
    then SupplierOrderStatus.sent_to_production
    else if n == 2
    then SupplierOrderStatus.in_production
    else if n == 3
    then SupplierOrderStatus.ready_for_shipment
    else if n == 4
    then SupplierOrderStatus.shipped
    else if n == 5
    then SupplierOrderStatus.delivered
    else SupplierOrderStatus.cancelled

status_of-position : (s : SupplierOrderStatus) → status_of (supplier_order_status_position s) ≡ s
unfolding status_of
status_of-position SupplierOrderStatus.draft = refl
status_of-position SupplierOrderStatus.sent_to_production = refl
status_of-position SupplierOrderStatus.in_production = refl
status_of-position SupplierOrderStatus.ready_for_shipment = refl
status_of-position SupplierOrderStatus.shipped = refl
status_of-position SupplierOrderStatus.delivered = refl
status_of-position SupplierOrderStatus.cancelled = refl

-- Statuses are equal if their positions are.
pub same_status : (s t : SupplierOrderStatus) → same s t ≡ true → s ≡ t
same_status s t e =
    let positions : supplier_order_status_position s ≡ supplier_order_status_position t =
      ground arith in
    sym (status_of-position s) ∙ ap status_of positions ∙ status_of-position t

-- A status that is allowed before the goods leave: an earlier stage's, or the cancellation.
early-Move :
    (s t : SupplierOrderStatus)
    → supplier_order_status_position s ≤ ready
    → ((supplier_order_status_position s < supplier_order_status_position t)
        × (supplier_order_status_position t ≤ ready))
      ⊎ (same t SupplierOrderStatus.cancelled ≡ true)
    → Move s t
early-Move s t early (inl (up, within)) = Move.forward up within
early-Move s t early (inr cancelled) =
    Move.cancel early (same_status t SupplierOrderStatus.cancelled cancelled)

allowed-Move : (s t : SupplierOrderStatus) → allowed s t ≡ true → Move s t
unfolding supplier_order_status_transitions
allowed-Move SupplierOrderStatus.draft t e =
    early-Move SupplierOrderStatus.draft t (omega arith) (ground arith)
allowed-Move SupplierOrderStatus.sent_to_production t e =
    early-Move SupplierOrderStatus.sent_to_production t (omega arith) (ground arith)
allowed-Move SupplierOrderStatus.in_production t e =
    early-Move SupplierOrderStatus.in_production t (omega arith) (ground arith)
allowed-Move SupplierOrderStatus.ready_for_shipment t e =
    elim (Bool_cases (same t SupplierOrderStatus.cancelled)) [
      | inl cancelled ↦
          early-Move SupplierOrderStatus.ready_for_shipment t (omega arith) (inr cancelled)
      | inr other ↦ Move.ship refl (same_status t SupplierOrderStatus.shipped (ground arith))
    ]
allowed-Move SupplierOrderStatus.shipped t e =
    Move.deliver refl (same_status t SupplierOrderStatus.delivered (ground arith))
allowed-Move SupplierOrderStatus.delivered t e = ground arith
allowed-Move SupplierOrderStatus.cancelled t e = ground arith

-- The table of status transitions allows just the moves of the abstract machine: forward among the
-- stages up to ready for shipment, from ready to shipped, from shipped to delivered, and to
-- cancelled while the goods have not left.
pub transitions_iff :
    (s t : SupplierOrderStatus)
    → (includes (supplier_order_status_transitions s) t ≡ true) ↔ Move s t
transitions_iff s t = (allowed-Move s t, Move-allowed s t)
