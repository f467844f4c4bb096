-- ===== src/Order/Monotone.antt =====
-- The projection of broker observations only ever moves an intent forward.
use thelight.Common.{
  ℕ, ◌≤◌, ◌≡◌, refl, ◌∙◌, ◌⊎◌, inl, inr, Bool-cases, true, false, List, [], ◌∷◌, arith,
}
use thelight.Types.{
  ExecutionStatus, pending, submission_attempted, accepted, rejected, unknown, partially_filled,
  filled, cancelled,
}
use thelight.Order.{found, BrokerOrderState, terminal_status, projected_broker_status}

-- How far an order has come.
abbrev pub progress : ExecutionStatus → ℕ
progress pending = 0
progress submission_attempted = 1
progress unknown = 2
progress accepted = 3
progress partially_filled = 4
progress rejected = 5
progress filled = 5
progress cancelled = 5

-- The status of an intent after a sequence of observations, the earliest first.
unfoldable pub project_all : ExecutionStatus → List BrokerOrderState → ExecutionStatus
project_all current [] = current
project_all current (state ∷ states) = project_all (projected_broker_status current state) states

pub projected-progress :
    (current : ExecutionStatus) (state : BrokerOrderState)
    → progress current ≤ progress (projected_broker_status current state)
unfolding projected_broker_status
projected-progress pending state = ground arith
projected-progress _ state = ground arith

pub projected_terminal :
    (current : ExecutionStatus) (state : BrokerOrderState)
    → terminal_status current ≡ true
    → projected_broker_status current state ≡ current
unfolding projected_broker_status
projected_terminal pending state h = cc
projected_terminal _ state h = ground arith

project_all-progress :
    (current : ExecutionStatus) (states : List BrokerOrderState)
    → (progress current ≤ progress (project_all current states))
      × (terminal_status current ≡ true → project_all current states ≡ current)
unfolding project_all
project_all-progress current [] = (omega arith, λ h. refl)
project_all-progress current (state ∷ states) =
    let rest = project_all-progress (projected_broker_status current state) states in
    (
      omega (arith, projected-progress current state, rest.0),
      λ h. let same = projected_terminal current state h in rest.1 (rw same h) ∙ same,
    )

-- A status that has not moved back, and that has not moved at all from a terminal one.
abbrev pub Advances : ExecutionStatus → ExecutionStatus → Type 0
Advances s s' = (progress s ≤ progress s') × ((terminal_status s ≡ false) ⊎ (s' ≡ s))

pub Advances-by :
    (s s' : ExecutionStatus)
    → progress s ≤ progress s'
    → (terminal_status s ≡ true → s' ≡ s)
    → Advances s s'
Advances-by s s' h k = (
  h,
  elim (Bool-cases (terminal_status s)) [
    | inl final ↦ inr (k final)
    | inr open_still ↦ inl open_still
  ],
)

-- Whatever the broker reports, in whatever order, the status of an intent never moves back, and an
-- intent that is filled, rejected or cancelled stays as it is.
pub project_all_forward :
    (current : ExecutionStatus) (states : List BrokerOrderState)
    → Advances current (project_all current states)
project_all_forward current states =
    let h = project_all-progress current states in
    Advances-by current (project_all current states) h.0 h.1

-- One of the observations found an order in this status.
abbrev pub Reported : ExecutionStatus → List BrokerOrderState → Type 0
Reported s [] = ⊥
Reported s (state ∷ states) =
    ((state.lookup_state ≡ found) × (state.status ≡ s)) ⊎ Reported s states

-- A status that means the broker holds or has executed an order.
abbrev pub IsLive : ExecutionStatus → Type 0
IsLive s = (s ≡ accepted) ⊎ (s ≡ partially_filled) ⊎ (s ≡ filled)

projected_live :
    (s current : ExecutionStatus) (state : BrokerOrderState)
    → IsLive s
    → projected_broker_status current state ≡ s
    → (current ≡ s) ⊎ ((state.lookup_state ≡ found) × (state.status ≡ s))
unfolding projected_broker_status
projected_live s pending state live e = ground arith
projected_live s _ state live e = ground arith

-- An intent counts as accepted, partially filled or filled only if it did before or if one of the
-- observations found the order at the broker in exactly that status.
pub live_needs_report :
    (s current : ExecutionStatus) (states : List BrokerOrderState)
    → IsLive s
    → project_all current states ≡ s
    → (current ≡ s) ⊎ Reported s states
unfolding project_all
live_needs_report s current [] live e = inl e
live_needs_report s current (state ∷ states) live e =
    elim (live_needs_report s (projected_broker_status current state) states live e) [
      | inl now ↦ elim (projected_live s current state live now) [
        | inl before ↦ inl before
        | inr here ↦ inr (inl here)
      ]
      | inr later ↦ inr (inr later)
    ]
