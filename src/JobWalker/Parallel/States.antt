-- ===== src/JobWalker/Parallel/States.antt =====
-- What the changes of the state of a walk keep, for any interleaving.
use mathlib.Core.Path.{subst}
use indexing_service.Prelude.{
  ◌≡◌, Bool, true, none, some, List, [], ◌∷◌, ℕ, zero, suc, Bool-cases, arith, All, get_elem?,
  Option-cases, inl, inr,
}
use indexing_service.JobWalker.Parallel.{
  Phase, walking, returned, failed, Walk, locked_swap, Event, feeds, swaps, spawns, handler_returns,
  handler_fails, receives_finish, receives_error, cancels, notices_cancel, drops_finish,
  drops_error, feed, walk_step, step, run,
}

locked_swap-keeps :
    {State : Type 0} (P : State → Type 0) (test : State → Bool) (change : State → State)
    (read current : State)
    → ((st : State) → test st ≡ true → P st → P (change st))
    → P current
    → P (locked_swap test change read current)
unfolding locked_swap
locked_swap-keeps P test change read current k h = elim (Bool-cases (test read)) [
  | inr a ↦ rw (a, locked_swap) h
  | inl a ↦ elim (Bool-cases (test current)) [
    | inr b ↦ rw (a, locked_swap) (rw b h)
    | inl b ↦ rw (a, locked_swap) (rw b (k current b h))
  ]
]

module _ {Job State : Type 0} (P : State → Type 0) where
  -- A swap that keeps `P` where its test holds; the other steps leave the state alone.
  abbrev pub KeepsState : Event Job State → Type 0
  KeepsState (swaps i test change read) = (st : State) → test st ≡ true → P st → P (change st)
  KeepsState _ = Unit

  walk_step-state :
      (event : Event Job State) (w w' : Walk Job State)
      → KeepsState event
      → walk_step event w ≡ some w'
      → P w.state
      → P w'.state
  unfolding walk_step
  walk_step-state (swaps i test change read) w w' k e h =
      elim (Option-cases (get_elem? w.running i)) [
        | inl q ↦ cc
        | inr (j, q) ↦ subst P (ground arith) (locked_swap-keeps P test change read w.state k h)
      ]
  walk_step-state feeds w w' k e h = subst P (fed w w.next w.idle e) h
    where
      fed :
          (w : Walk Job State) (js : List Job) (n : ℕ) → feed w js n ≡ some w' → w.state ≡ w'.state
      fed w [] n q = cc
      fed w (j ∷ js) zero q = cc
      fed w (j ∷ js) (suc n) q = ground arith
  walk_step-state (spawns i queued) w w' k e h = subst P (ground arith) h
  walk_step-state (handler_returns i) w w' k e h = subst P (ground arith) h
  walk_step-state (handler_fails i x) w w' k e h = subst P (ground arith) h
  walk_step-state (receives_finish i) w w' k e h = subst P (ground arith) h
  walk_step-state (receives_error i) w w' k e h = subst P (ground arith) h
  walk_step-state (cancels x) w w' k e h = subst P (ground arith) h
  walk_step-state notices_cancel w w' k e h = subst P (ground arith) h
  walk_step-state (drops_finish i) w w' k e h = subst P (ground arith) h
  walk_step-state (drops_error i) w w' k e h = subst P (ground arith) h

  step-state :
      (event : Event Job State) (w w' : Walk Job State)
      → KeepsState event
      → step event w ≡ some w'
      → P w.state
      → P w'.state
  unfolding step
  step-state event w w' k e h = by_phase w.phase e
    where
      by_phase :
          (p : Phase)
          → elim p [ walking ↦ walk_step event w | returned ↦ none | failed x ↦ none ] ≡ some w'
          → P w'.state
      by_phase walking q = walk_step-state event w w' k q h
      by_phase returned q = cc
      by_phase (failed x) q = cc

  -- Whatever holds of the state of a walk, and is kept by each swap among the steps where the test
  -- of the swap holds, holds of the state after these steps, in any interleaving, although a swap
  -- also tests a state that was read before.
  pub run-state :
      (w : Walk Job State) (events : List (Event Job State))
      → All KeepsState events
      → P w.state
      → P (run w events).state
  unfolding run
  run-state w [] k h = h
  run-state w (event ∷ events) k h = elim (Option-cases (step event w)) [
    | inl e ↦ rw (e, run) (run-state w events k.1 h)
    | inr (w', e) ↦ rw (e, run) (run-state w' events k.1 (step-state event w w' k.0 e h))
  ]
