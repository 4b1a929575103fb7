-- ===== src/Process/Runs.antt =====
-- Running a process on a script: the answers to its calls and the choices of the event loop.
use testy_mc_testface.Prelude.{◌≡◌, refl, List, [], ◌∷◌, ◌++◌}
use testy_mc_testface.Process.{Process, idle, ret, throw, sync, call, choose}
use testy_mc_testface.Process.Keeps.{Keeps}

pub data Event (P : Type 0) : Type 0 where
  answer : P → Event P
  left right : Event P

-- How far a run has come.
pub data Status (V E : Type 0) : Type 0 where
  returned : V → Status V E
  thrown : E → Status V E
  waiting : Status V E

pub record Result (W Q V E : Type 0) : Type 0 where
  pub status : Status V E
  pub world : W
  pub calls : List Q

abbrev pub after : {W Q V E : Type 0} → Q → Result W Q V E → Result W Q V E
after q r = record r { calls = q ∷ r.calls }

module _ {W : Type 0} where
  -- The last of some states, the first of which stands before the list.
  abbrev pub last_from : W → List W → W
  last_from w [] = w
  last_from w (v ∷ vs) = last_from v vs

  -- Each state is related to the one before it.
  abbrev pub Chain : (W → W → Type 0) → W → List W → Type 0
  Chain R w [] = Unit
  Chain R w (v ∷ vs) = R w v × Chain R v vs

module _ {W Q P V E : Type 0} where
  -- A script that does not fit the process, or ends early, leaves it waiting.
  unfoldable pub run : Process W Q P V E → W → List (Event P) → Result W Q V E
  run idle w es = record { status = waiting; world = w; calls = [] }
  run (ret v z) w es = record { status = returned v; world = w; calls = [] }
  run (throw e z) w es = record { status = thrown e; world = w; calls = [] }
  run (sync f g) w es = run (g w) (f w) es
  run (call q g) w (answer r ∷ es) = after q (run (g r) w es)
  run (call q g) w es = record { status = waiting; world = w; calls = [] }
  run (choose a b) w (left ∷ es) = run a w es
  run (choose a b) w (right ∷ es) = run b w es
  run (choose a b) w es = record { status = waiting; world = w; calls = [] }

  -- The states that a run goes through after its first one, in order.
  unfoldable pub states : Process W Q P V E → W → List (Event P) → List W
  states idle w es = []
  states (ret v z) w es = []
  states (throw e z) w es = []
  states (sync f g) w es = f w ∷ states (g w) (f w) es
  states (call q g) w (answer r ∷ es) = states (g r) w es
  states (call q g) w es = []
  states (choose a b) w (left ∷ es) = states a w es
  states (choose a b) w (right ∷ es) = states b w es
  states (choose a b) w es = []

  pub last_from-states :
      (p : Process W Q P V E) (w : W) (es : List (Event P))
      → last_from w (states p w es) ≡ (run p w es).world
  unfolding run states
  last_from-states idle w es = refl
  last_from-states (ret v z) w es = refl
  last_from-states (throw e z) w es = refl
  last_from-states (sync f g) w es = last_from-states (g w) (f w) es
  last_from-states (call q g) w (answer r ∷ es) = last_from-states (g r) w es
  last_from-states (call q g) w _ = refl
  last_from-states (choose a b) w (left ∷ es) = last_from-states a w es
  last_from-states (choose a b) w (right ∷ es) = last_from-states b w es
  last_from-states (choose a b) w _ = refl

  module _ (R : W → W → Type 0) where
    pub states-Chain :
        (p : Process W Q P V E) (w : W) (es : List (Event P))
        → Keeps R p
        → Chain R w (states p w es)
    unfolding states Keeps
    states-Chain idle w es h = tt
    states-Chain (ret v z) w es h = tt
    states-Chain (throw e z) w es h = tt
    states-Chain (sync f g) w es h = (h.0 w, states-Chain (g w) (f w) es (h.1 w))
    states-Chain (call q g) w (answer r ∷ es) h = states-Chain (g r) w es (h r)
    states-Chain (call q g) w _ h = tt
    states-Chain (choose a b) w (left ∷ es) h = states-Chain a w es h.0
    states-Chain (choose a b) w (right ∷ es) h = states-Chain b w es h.1
    states-Chain (choose a b) w _ h = tt

  module _ (R : W → W → Type 0) (stay : (w : W) → R w w)
      (follow : (u v w : W) → R u v → R v w → R u w) where
    -- What each step keeps, every run keeps, whatever is answered and whatever order is chosen.
    pub run-Keeps :
        (p : Process W Q P V E) (w : W) (es : List (Event P)) → Keeps R p → R w (run p w es).world
    unfolding run Keeps
    run-Keeps idle w es h = stay w
    run-Keeps (ret v z) w es h = stay w
    run-Keeps (throw e z) w es h = stay w
    run-Keeps (sync f g) w es h = follow w (f w) _ (h.0 w) (run-Keeps (g w) (f w) es (h.1 w))
    run-Keeps (call q g) w (answer r ∷ es) h = run-Keeps (g r) w es (h r)
    run-Keeps (call q g) w _ h = stay w
    run-Keeps (choose a b) w (left ∷ es) h = run-Keeps a w es h.0
    run-Keeps (choose a b) w (right ∷ es) h = run-Keeps b w es h.1
    run-Keeps (choose a b) w _ h = stay w

    -- The same between a state that a run reaches and every one that it reaches later.
    pub run-Keeps_later :
        (p : Process W Q P V E) (w : W) (es more : List (Event P))
        → Keeps R p
        → R (run p w es).world (run p w (es ++ more)).world
    unfolding run Keeps
    run-Keeps_later idle w es more h = stay w
    run-Keeps_later (ret v z) w es more h = stay w
    run-Keeps_later (throw e z) w es more h = stay w
    run-Keeps_later (sync f g) w es more h = run-Keeps_later (g w) (f w) es more (h.1 w)
    run-Keeps_later (call q g) w [] more h = run-Keeps (call q g) w more h
    run-Keeps_later (call q g) w (answer r ∷ es) more h = run-Keeps_later (g r) w es more (h r)
    run-Keeps_later (call q g) w (left ∷ es) more h = stay w
    run-Keeps_later (call q g) w (right ∷ es) more h = stay w
    run-Keeps_later (choose a b) w [] more h = run-Keeps (choose a b) w more h
    run-Keeps_later (choose a b) w (left ∷ es) more h = run-Keeps_later a w es more h.0
    run-Keeps_later (choose a b) w (right ∷ es) more h = run-Keeps_later b w es more h.1
    run-Keeps_later (choose a b) w (answer r ∷ es) more h = stay w
