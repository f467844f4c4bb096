-- ===== src/Broker/Execution.antt =====
-- The class `AlpacaPaperExecution`: lookup of an order by its client id, and the one POST.
use thelight.Common.{
  ℕ, String, str_eq, Bool, ◌&&◌, ◌||◌, not, Option, none, some, List, [], ◌∷◌, ◌==◌, if◌then◌else◌,
  any, keep,
}
use thelight.Number.{Num, ◌-F◌, ◌<F◌, ◌==F◌, abs, int, of_int, is_finite}
use thelight.Types.{ExecutionIntent, ExecutionStatus, pending, rejected, unknown, cancelled}
use thelight.Order.{Lookup, found, absent, unresolved, BrokerOrderState, is_found, status_eq}
use thelight.Store.Intents.{client_id}
use thelight.Broker.Reply.{
  OrderBody, Reply, no_reply, reply, authentication_failure, http_failure, no_response,
  position_reconciliation_required, invalid_broker_position, Outcome, returned, thrown, is_ok,
  is_unauthorized, text_or_null, order_status,
}

pub record BrokerPositionSnapshot (F : Type 0) : Type 0 where
  pub symbol : String
  pub quantity : F
  pub reconciled_at : ℕ
  pub provenance : String

pub data Side : Type 0 where
  buy sell : Side

-- The body of the POST; its quantity is the text of this number.
pub record OrderRequest (F : Type 0) : Type 0 where
  pub symbol : String
  pub qty : F
  pub side : Side
  pub client_order_id : String

-- `uncertainClientOrderIds`
abbrev pub Uncertain : Type 0
Uncertain = List String

abbrev pub has : String → Uncertain → Bool
has id u = any (λ x. str_eq x id) u

abbrev pub add : String → Uncertain → Uncertain
add id u = if has id u then u else id ∷ u

abbrev pub delete : String → Uncertain → Uncertain
delete id u = keep (λ x. not (str_eq x id)) u

-- The private method `state`
unfoldable pub state_of_intent :
    ExecutionIntent
    → ExecutionStatus
    → Option String
    → Option String
    → Option String
    → Lookup
    → BrokerOrderState
state_of_intent intent status broker_order_id updated_at raw_status lookup_state = record {
  decision_id = intent.decision_id;
  intent_id = intent.intent_id;
  client_order_id = client_id intent;
  broker_order_id = broker_order_id;
  status = status;
  updated_at = updated_at;
  raw_status = raw_status;
  lookup_state = lookup_state;
}

-- `fromOrder`
unfoldable pub from_order : ExecutionIntent → OrderBody → BrokerOrderState
unfolding state_of_intent order_status
from_order intent order =
    state_of_intent intent (order_status order) (text_or_null order.id)
      (text_or_null order.updated_at) (text_or_null order.status) found

-- A lookup that found no order: `UNKNOWN` for an uncertain submission, else the intent's status.
unfoldable pub absent_state : ExecutionIntent → Uncertain → BrokerOrderState
unfolding state_of_intent
absent_state intent u =
    let uncertain = status_eq intent.status unknown || has (client_id intent) u in
    state_of_intent intent (if uncertain then unknown else intent.status) none none none absent

-- `reconcile`, with the reply to its GET
unfoldable pub reconcile :
    ExecutionIntent → Uncertain → Reply OrderBody → Outcome BrokerOrderState × Uncertain
unfolding absent_state from_order
reconcile intent u no_reply = (thrown no_response, u)
reconcile intent u (reply code body) =
    if code == 404
    then (returned (absent_state intent u), u)
    else if is_unauthorized code
    then (thrown authentication_failure, u)
    else if not (is_ok code)
    then (thrown http_failure, u)
    else elim body [
      | none ↦ (thrown no_response, u)
      | some order ↦ (returned (from_order intent order), delete (client_id intent) u)
    ]

-- What a call of `submit` leaves behind: its result, the uncertain ids and the orders posted.
pub record Submitted (F : Type 0) : Type 0 where
  pub outcome : Outcome BrokerOrderState
  pub uncertain : Uncertain
  pub posts : List (OrderRequest F)

-- The end of `submit`: the reply to the POST. An authentication failure is an
-- `AlpacaTransportError` and leaves the `catch` again; any other throw is an unknown submission.
unfoldable pub after_post :
    ExecutionIntent → Uncertain → Reply OrderBody → Outcome BrokerOrderState × Uncertain
unfolding state_of_intent from_order
after_post intent u no_reply =
    (returned (state_of_intent intent unknown none none none unresolved), add (client_id intent) u)
after_post intent u (reply code body) =
    if is_unauthorized code
    then (thrown authentication_failure, u)
    else if not (is_ok code)
    then (returned (state_of_intent intent rejected none none none unresolved), u)
    else elim body [
      | none ↦ (
        returned (state_of_intent intent unknown none none none unresolved),
        add (client_id intent) u,
      )
      | some order ↦ (returned (from_order intent order), delete (client_id intent) u)
    ]

module _ {F : Type 0} ⦃num : Num F⦄ where
  abbrev pub request_of : String → ExecutionIntent → F → OrderRequest F
  request_of symbol intent delta = record {
    symbol = symbol;
    qty = abs delta;
    side = if int 0 <F delta then buy else sell;
    client_order_id = client_id intent;
  }

  abbrev pub stop : Outcome BrokerOrderState → Uncertain → Submitted F
  stop outcome u = record { outcome = outcome; uncertain = u; posts = [] }

  -- The POST itself, once the position is trusted.
  unfoldable pub post_order :
      String → ExecutionIntent → F → Uncertain → Reply OrderBody → Submitted F
  unfolding after_post
  post_order symbol intent quantity u post =
      let delta = of_int intent.desired_position -F quantity in
      if delta ==F int 0
      then stop (returned (state_of_intent intent cancelled none none none absent)) u
      else record {
        outcome = (after_post intent u post).0;
        uncertain = (after_post intent u post).1;
        posts = request_of symbol intent delta ∷ [];
      }

  -- `submit` after its lookup
  unfoldable pub submit_after :
      String
      → ExecutionIntent
      → BrokerPositionSnapshot F
      → Bool
      → Uncertain
      → BrokerOrderState
      → Reply OrderBody
      → Submitted F
  unfolding post_order
  submit_after symbol intent position recovery u existing post =
      let uncertain = status_eq existing.status unknown || has (client_id intent) u in
      if is_found existing.lookup_state
      then stop (returned existing) u
      else if uncertain && not recovery
      then stop (returned existing) u
      else if not (status_eq existing.status pending) && not uncertain
      then stop (returned existing) u
      else if not (str_eq position.provenance "ALPACA_RECONCILED")
          || not (str_eq position.symbol symbol)
      then stop (thrown position_reconciliation_required) u
      else if not (is_finite position.quantity)
      then stop (thrown invalid_broker_position) u
      else post_order symbol intent position.quantity u post

  -- `submit`: `recovery` says that the caller passed the authorization of a resubmission, `get` and
  -- `post` are the replies to the lookup and, if it is sent, to the order.
  unfoldable pub submit :
      String
      → ExecutionIntent
      → BrokerPositionSnapshot F
      → Bool
      → Uncertain
      → Reply OrderBody
      → Reply OrderBody
      → Submitted F
  unfolding submit_after
  submit symbol intent position recovery u get post =
      let (looked, u') = reconcile intent u get in
      elim looked [
        | thrown e ↦ stop (thrown e) u'
        | returned existing ↦ submit_after symbol intent position recovery u' existing post
      ]
