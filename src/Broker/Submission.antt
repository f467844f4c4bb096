-- ===== src/Broker/Submission.antt =====
-- When `submit` posts an order, and that an uncertain submission is never repeated.
use thelight.Common.{
  ◌≡◌, refl, ◌≢◌, ◌⊎◌, inl, inr, String, eq_refl, Bool, true, false, ◌&&◌, not, none, some, List,
  [], ◌∷◌, ◌++◌, Bool-cases, arith,
}
use thelight.Number.{Num, ◌-F◌, of_int, is_finite}
use thelight.Types.{ExecutionIntent, pending}
use thelight.Store.Intents.{client_id}
use thelight.Broker.Reply.{OrderBody, Reply, no_reply, reply, is_ok}
use thelight.Broker.Execution.{
  BrokerPositionSnapshot, OrderRequest, Uncertain, has, add, reconcile, after_post, request_of,
  post_order, submit,
}

-- The lookup says that there is no such order.
abbrev pub IsAbsent : Reply OrderBody → Type 0
IsAbsent no_reply = ⊥
IsAbsent (reply code body) = code ≡ 404

-- The lookup shows an order.
abbrev pub shows_order : Reply OrderBody → Bool
shows_order no_reply = false
shows_order (reply code none) = false
shows_order (reply code (some order)) = is_ok code

-- A call of `submit` for an intent: the position it sees and the replies it gets.
pub record Attempt (F : Type 0) : Type 0 where
  pub position : BrokerPositionSnapshot F
  pub get : Reply OrderBody
  pub post : Reply OrderBody

-- No lookup of the sequence shows an order.
unfoldable pub never_shown : {F : Type 0} → List (Attempt F) → Bool
never_shown [] = true
never_shown (a ∷ rest) = not (shows_order a.get) && never_shown rest

has-add : (id : String) (u : Uncertain) → has id (add id u) ≡ true
has-add id u = elim (Bool-cases (has id u)) [
  | inl known ↦ rw (known, known)
  | inr fresh ↦ rw (fresh, eq_refl id)
]

and_split : (a b : Bool) → (not a && b) ≡ true → (a ≡ false) × (b ≡ true)
and_split a b h = ground arith

module _ {F : Type 0} ⦃num : Num F⦄ where
  post_order_posts :
      (symbol : String) (intent : ExecutionIntent) (quantity : F) (u : Uncertain)
      (post : Reply OrderBody)
      → ((post_order symbol intent quantity u post).posts ≡ [])
        ⊎ ((post_order symbol intent quantity u post).posts
            ≡ request_of symbol intent (of_int intent.desired_position -F quantity) ∷ [])
  unfolding post_order
  post_order_posts symbol intent quantity u post = ground arith

  -- What is known when an order has been posted.
  abbrev pub Safe :
      String
      → ExecutionIntent
      → BrokerPositionSnapshot F
      → Bool
      → Uncertain
      → Reply OrderBody
      → Type 0
  Safe symbol intent position recovery u get =
      IsAbsent get
      × (((intent.status ≡ pending) × (has (client_id intent) u ≡ false)) ⊎ (recovery ≡ true))
      × (position.provenance ≡ "ALPACA_RECONCILED")
      × (position.symbol ≡ symbol)
      × (is_finite position.quantity ≡ true)

  -- The orders that a sequence of calls without authorization posts, the uncertain ids passed on.
  unfoldable pub posts_of :
      String → ExecutionIntent → Uncertain → List (Attempt F) → List (OrderRequest F)
  posts_of symbol intent u [] = []
  posts_of symbol intent u (a ∷ rest) =
      let done = submit symbol intent a.position false u a.get a.post in
      done.posts ++ posts_of symbol intent done.uncertain rest

  submit-uncertain :
      (symbol : String) (intent : ExecutionIntent) (position : BrokerPositionSnapshot F)
      (u : Uncertain) (get post : Reply OrderBody)
      → has (client_id intent) u ≡ true
      → shows_order get ≡ false
      → ((submit symbol intent position false u get post).posts ≡ [])
        × ((submit symbol intent position false u get post).uncertain ≡ u)
  unfolding submit reconcile
  submit-uncertain symbol intent position u no_reply post known unseen = (refl, refl)
  submit-uncertain symbol intent position u (reply code none) post known unseen = ground arith
  submit-uncertain symbol intent position u (reply code (some order)) post known unseen =
      ground arith

  uncertain_stays_quiet :
      (symbol : String) (intent : ExecutionIntent) (u : Uncertain) (later : List (Attempt F))
      → has (client_id intent) u ≡ true
      → never_shown later ≡ true
      → posts_of symbol intent u later ≡ []
  unfolding posts_of never_shown
  uncertain_stays_quiet symbol intent u [] known unseen = refl
  uncertain_stays_quiet symbol intent u (a ∷ rest) known unseen =
      let (hidden, unseen') = and_split (shows_order a.get) (never_shown rest) unseen in
      let (quiet, same) = submit-uncertain symbol intent a.position u a.get a.post known hidden in
      let ih = uncertain_stays_quiet symbol intent u rest known unseen' in rw (quiet, same) ih

  submit-no_reply :
      (symbol : String) (intent : ExecutionIntent) (position : BrokerPositionSnapshot F)
      (recovery : Bool) (u : Uncertain) (get : Reply OrderBody)
      → (submit symbol intent position recovery u get no_reply).posts ≢ []
      → has (client_id intent) (submit symbol intent position recovery u get no_reply).uncertain
        ≡ true
  unfolding submit reconcile post_order after_post
  submit-no_reply symbol intent position recovery u no_reply posted = ground arith
  submit-no_reply symbol intent position recovery u (reply code none) posted =
      ground (arith, has-add (client_id intent) u)
  submit-no_reply symbol intent position recovery u (reply code (some order)) posted =
      ground (arith, has-add (client_id intent) u)

  -- A POST that got no reply is never repeated: when a call of `submit` has posted an order and no
  -- reply came, no later sequence of calls without authorization posts an order for this intent, as
  -- long as no lookup shows an order.
  pub uncertain_never_reposts :
      (symbol : String) (intent : ExecutionIntent) (position : BrokerPositionSnapshot F)
      (recovery : Bool) (u : Uncertain) (get : Reply OrderBody) (later : List (Attempt F))
      → (submit symbol intent position recovery u get no_reply).posts ≢ []
      → never_shown later ≡ true
      → posts_of symbol intent
          (submit symbol intent position recovery u get no_reply).uncertain
          later
        ≡ []
  uncertain_never_reposts symbol intent position recovery u get later posted unseen =
      uncertain_stays_quiet symbol intent _ later
        (submit-no_reply symbol intent position recovery u get posted) unseen
