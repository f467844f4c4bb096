-- ===== src/Broker/Reads.antt =====
-- The reads of the class `AlpacaPaperBroker`: the account, the position and the open orders. A body
-- gives the numbers that `Number(...)` makes of its fields.
use thelight.Common.{
  ℕ, ◌≡◌, refl, subst, inl, inr, Bool-cases, String, str_eq, Bool, true, false, ◌||◌, not, Option,
  none, some, List, ◌==◌, or_else, map, arith, if◌then◌else◌,
}
use thelight.Number.{Num, ◌≤F◌, int, is_finite}
use thelight.Types.{ExecutionStatus}
use thelight.Broker.Reply.{
  OrderBody, Reply, no_reply, reply, authentication_failure, http_failure, no_response, Outcome,
  returned, thrown, is_ok, is_unauthorized, text_or_null, order_status,
}
use thelight.Broker.Execution.{BrokerPositionSnapshot}

pub record BrokerAccountSnapshot (F : Type 0) : Type 0 where
  pub equity : F
  pub reconciled_at : ℕ
  pub provenance : String

pub record OpenBrokerOrder : Type 0 where
  pub client_order_id : String
  pub broker_order_id : Option String
  pub status : ExecutionStatus

pub record PositionBody (F : Type 0) : Type 0 where
  pub qty : F
  pub symbol : String

-- The tests that the three reads share: the body of a good reply
unfoldable pub body_of : {A : Type 0} → Reply A → Outcome A
body_of no_reply = thrown no_response
body_of (reply code body) =
    if is_unauthorized code
    then thrown authentication_failure
    else if not (is_ok code)
    then thrown http_failure
    else elim body [ none ↦ thrown no_response | some b ↦ returned b ]

-- `openOrders`; `none` is a body that is no array.
unfoldable pub open_orders : Reply (Option (List OrderBody)) → Outcome (List OpenBrokerOrder)
unfolding body_of
open_orders answer = elim (body_of answer) [
  | thrown e ↦ thrown e
  | returned none ↦ thrown http_failure
  | returned (some orders) ↦ returned (
      map
        (λ order. record {
          client_order_id = or_else order.client_order_id "";
          broker_order_id = text_or_null order.id;
          status = order_status order;
        })
        orders)
]

returned_eq : {A : Type 0} (x y : A) → returned x ≡ returned y → x ≡ y
returned_eq x y h = cc h

no_fault : (a b : Bool) → (not a || not b) ≡ false → a ≡ true
no_fault a b h = ground arith

module _ {F : Type 0} ⦃num : Num F⦄ where
  -- `account`, with the number that the body's equity is
  unfoldable pub account : ℕ → Reply F → Outcome (BrokerAccountSnapshot F)
  unfolding body_of
  account now answer = elim (body_of answer) [
    | thrown e ↦ thrown e
    | returned equity ↦
        if not (is_finite equity) || equity ≤F int 0
        then thrown http_failure
        else returned
            (record { equity = equity; reconciled_at = now; provenance = "ALPACA_PAPER_ACCOUNT" })
  ]

  abbrev pub reconciled : String → F → ℕ → BrokerPositionSnapshot F
  reconciled symbol quantity now = record {
    symbol = symbol;
    quantity = quantity;
    reconciled_at = now;
    provenance = "ALPACA_RECONCILED";
  }

  -- the test on a body of `position`
  abbrev pub position_of :
      (String → String) → String → ℕ → Outcome (PositionBody F) → Outcome (BrokerPositionSnapshot F)
  position_of to_upper symbol now (thrown e) = thrown e
  position_of to_upper symbol now (returned body) =
      if not (is_finite body.qty) || not (str_eq (to_upper body.symbol) symbol)
      then thrown http_failure
      else returned (reconciled symbol body.qty now)

  -- `position`: no position is the position 0. `to_upper` is JavaScript's `toUpperCase`.
  unfoldable pub position :
      (String → String) → String → ℕ → Reply (PositionBody F) → Outcome (BrokerPositionSnapshot F)
  unfolding body_of
  position to_upper symbol now no_reply = thrown no_response
  position to_upper symbol now (reply code body) =
      if code == 404
      then returned (reconciled symbol (int 0) now)
      else position_of to_upper symbol now (body_of (reply code body))

  -- What `submit` asks of a position
  abbrev pub IsTrusted : String → BrokerPositionSnapshot F → Type 0
  IsTrusted symbol p =
      (p.provenance ≡ "ALPACA_RECONCILED") × (p.symbol ≡ symbol) × (is_finite p.quantity ≡ true)

  position_of-IsTrusted :
      (to_upper : String → String) (symbol : String) (now : ℕ) (body : Outcome (PositionBody F))
      (p : BrokerPositionSnapshot F)
      → position_of to_upper symbol now body ≡ returned p
      → IsTrusted symbol p
  position_of-IsTrusted to_upper symbol now (thrown e) p h = cc
  position_of-IsTrusted to_upper symbol now (returned body) p h =
      elim (Bool-cases (not (is_finite body.qty) || not (str_eq (to_upper body.symbol) symbol))) [
        | inl bad ↦ cc (rw bad at h)
        | inr good ↦
            subst (IsTrusted symbol) (returned_eq (reconciled symbol body.qty now) p (rw good at h))
              (refl, refl, no_fault (is_finite body.qty) _ good)
      ]

  -- A position that the broker's read returns is one that `submit` trusts: it has the provenance and
  -- the symbol that `submit` asks for, and its quantity is a finite number, if 0 is one.
  pub position-IsTrusted :
      (to_upper : String → String) (symbol : String) (now : ℕ) (answer : Reply (PositionBody F))
      (p : BrokerPositionSnapshot F)
      → num.is_finite (int 0) ≡ true
      → position to_upper symbol now answer ≡ returned p
      → IsTrusted symbol p
  unfolding position
  position-IsTrusted to_upper symbol now no_reply p zero_finite h = cc
  position-IsTrusted to_upper symbol now (reply code body) p zero_finite h =
      elim (Bool-cases (code == 404)) [
        | inl no_position ↦
            subst (IsTrusted symbol)
              (returned_eq (reconciled symbol (int 0) now) p (rw no_position at h))
              (refl, refl, zero_finite)
        | inr there ↦
            position_of-IsTrusted to_upper symbol now (body_of (reply code body)) p (rw there at h)
      ]
