-- ===== src/StateMachine/Edges.antt =====
-- The transition diagram of `evaluateStateTransition` (src/client/lib/qos/stateMachine.js).
use mediasoup_cpp.Shared.{ℕ, ◌≡◌, ◌⊎◌, Number, arith, or_else}
use mediasoup_cpp.Types.{QosState, stable, early_warning, congested, recovering, Signals, Profile}
use mediasoup_cpp.StateMachine.{Context, choose_state, enter_state, next_context}

infix 40 ◌⟶◌
pub data ◌⟶◌ : QosState → QosState → Type 0 where
  degrade : stable ⟶ early_warning
  collapse : early_warning ⟶ congested
  calm : early_warning ⟶ stable
  retry : congested ⟶ recovering
  relapse : recovering ⟶ congested
  heal : recovering ⟶ stable

abbrev pub since_ms : Context → ℕ
since_ms c = or_else c.last_congested_at_ms c.entered_at_ms

choose_state_edge :
    (s : QosState) (c : Context) (cooldown now : ℕ)
    → (choose_state s c cooldown now ≡ s) ⊎ (s ⟶ choose_state s c cooldown now)
choose_state_edge stable c cooldown now = grind (arith, degrade)
choose_state_edge early_warning c cooldown now = grind (arith, collapse, calm)
choose_state_edge congested c cooldown now = grind (arith, retry)
choose_state_edge recovering c cooldown now = grind (arith, relapse, heal)

state-enter_state : (s : QosState) (now : ℕ) (c : Context) → (enter_state s now c).state ≡ s
state-enter_state s now c = ground arith

module _ {W : Type 0} ⦃num : Number W⦄ where
  -- A sample either keeps the state, with its time of entry, or follows an edge of the diagram, and
  -- then the new state is entered now.
  pub next_context_edge :
      (c : Context) (s : Signals W) (p : Profile W) (now : ℕ)
      → let next = next_context c s p now in
        ((next.state ≡ c.state) × (next.entered_at_ms ≡ c.entered_at_ms))
        ⊎ ((c.state ⟶ next.state) × (next.entered_at_ms ≡ now))
  unfolding next_context
  next_context_edge c s p now = grind (arith, degrade, collapse, calm, retry, relapse, heal)
