-- ===== src/Handler/Simple/Loop.antt =====
-- The `loop { match … }` of floodsub/src/handler.rs: a turn goes round again, breaks, returns an event
-- from the function, or panics. Fuel bounds the turns.
use rust_libp2p_pubsub.Prelude.{ℕ, zero, suc, ◌<◌, ◌≡◌, arith}

pub data Turn (H E : Type 0) : Type 0 where
  again break : H → Turn H E
  return : H → E → Turn H E
  panic : Turn H E

pub data Ended (H E : Type 0) : Type 0 where
  broken : H → Ended H E
  emitted : H → E → Ended H E
  panicked out_of_fuel : Ended H E

module _ {H E : Type 0} (turn : H → Turn H E) where
  unfoldable pub run_loop : ℕ → H → Ended H E
  run_loop zero h = out_of_fuel
  run_loop (suc f) h = elim (turn h) [
    | again h' ↦ run_loop f h'
    | break h' ↦ broken h'
    | return h' e ↦ emitted h' e
    | panic ↦ panicked
  ]

-- The loop ended, by a break or with an event, in a state with the property.
abbrev pub EndKeeps : {H E : Type 0} → (H → Type 0) → Ended H E → Type 0
EndKeeps P (broken h) = P h
EndKeeps P (emitted h e) = P h
EndKeeps P panicked = ⊥
EndKeeps P out_of_fuel = ⊥

module _ {H E : Type 0} (P : H → Type 0) (measure : H → ℕ) where
  -- A turn from a state keeps the property, and goes round again with a smaller measure only.
  abbrev pub TurnKeeps : H → Turn H E → Type 0
  TurnKeeps h (again h') = P h' × (measure h' < measure h)
  TurnKeeps h (break h') = P h'
  TurnKeeps h (return h' e) = P h'
  TurnKeeps h panic = ⊥

  -- With fuel above the measure the loop ends, without a panic, and keeps the property.
  pub run_loop-keeps :
      (turn : H → Turn H E)
      → ((h : H) → P h → TurnKeeps h (turn h))
      → (f : ℕ) (h : H) → measure h < f
      → P h
      → EndKeeps P (run_loop turn f h)
  unfolding run_loop
  run_loop-keeps turn keep zero h m p = absurd (omega arith)
  run_loop-keeps turn keep (suc f) h m p =
      after (turn h) (keep h p) (λ h' l q. run_loop-keeps turn keep f h' (omega arith) q)
    where
      after :
          (t : Turn H E)
          → TurnKeeps h t
          → ((h' : H) → measure h' < measure h → P h' → EndKeeps P (run_loop turn f h'))
          → EndKeeps P (elim t [
            | again h' ↦ run_loop turn f h'
            | break h' ↦ broken h'
            | return h' e ↦ emitted h' e
            | panic ↦ panicked
          ])
      after (again h') k next = next h' k.1 k.0
      after (break h') k next = k
      after (return h' e) k next = k
      after panic k next = k

module _ {H E : Type 0} (turn : H → Turn H E) where
  pub run_loop-again :
      (f : ℕ) {h h' : H} → turn h ≡ again h' → run_loop turn (suc f) h ≡ run_loop turn f h'
  unfolding run_loop
  run_loop-again f e = rw (e, run_loop)

  pub run_loop-break : (f : ℕ) {h h' : H} → turn h ≡ break h' → run_loop turn (suc f) h ≡ broken h'
  unfolding run_loop
  run_loop-break f e = rw (e, run_loop)
