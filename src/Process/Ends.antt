-- ===== src/Process/Ends.antt =====
-- The calls that a sequential process has made on each way to its end.
use testy_mc_testface.Prelude.{◌≡◌, refl, sym, subst, List, [], ◌∷◌, ◌++◌}
use mathlib.Core.List.{append-nil, append_assoc}
use testy_mc_testface.Process.{
  Process, idle, ret, throw, sync, call, choose, settle, beside, ◌>>=◌, ◌>>◌, read,
}
use testy_mc_testface.Process.Runs.{
  Event, answer, left, right, run, Status, returned, thrown, waiting,
}

abbrev pub picked : {Q X : Type 0} → (Q → List X) → List Q → List X
picked pick [] = []
picked pick (q ∷ qs) = pick q ++ picked pick qs

-- What a run has come to, given its picked calls.
abbrev pub Reached :
    {V E X : Type 0} (returns throws : List X → Type 0) → List X → Status V E → Type 0
Reached returns throws l (returned v) = returns l
Reached returns throws l (thrown e) = throws l
Reached returns throws l waiting = Unit

stop :
    {X : Type 0} (returns : List X → Type 0) (before : List X)
    → returns before
    → returns (before ++ [])
stop returns before h = subst returns (sym (append-nil before)) h

module _ {W Q P V E X : Type 0} (pick : Q → List X) where
  -- On every way through the process: the picked calls, behind those of `before`, are as `returns`
  -- says where it returns and as `throws` says where it throws, and nothing goes on behind it.
  unfoldable pub Ends :
      (returns throws : List X → Type 0) (before : List X) → Process W Q P V E → Type 0
  Ends returns throws before idle = Unit
  Ends returns throws before (ret v z) = returns before × (z ≡ idle)
  Ends returns throws before (throw e z) = throws before × (z ≡ idle)
  Ends returns throws before (sync f g) = (w : W) → Ends returns throws before (g w)
  Ends returns throws before (call q g) = (r : P) → Ends returns throws (before ++ pick q) (g r)
  Ends returns throws before (choose a b) =
      Ends returns throws before a × Ends returns throws before b

  pub sync-Ends :
      (returns throws : List X → Type 0) (before : List X) (f : W → W) (g : W → Process W Q P V E)
      → ((w : W) → Ends returns throws before (g w))
      → Ends returns throws before (sync f g)
  unfolding Ends
  sync-Ends returns throws before f g h = h

  pub read-Ends :
      (returns throws : List X → Type 0) (before : List X) (g : W → Process W Q P V E)
      → ((w : W) → Ends returns throws before (g w))
      → Ends returns throws before (read g)
  unfolding Ends read
  read-Ends returns throws before g h = h

  pub call-Ends :
      (returns throws : List X → Type 0) (before : List X) (q : Q) (g : P → Process W Q P V E)
      → ((r : P) → Ends returns throws (before ++ pick q) (g r))
      → Ends returns throws before (call q g)
  unfolding Ends
  call-Ends returns throws before q g h = h

  module _ (mid caught returns throws : List X → Type 0) where
    pub settle-Ends :
        (before : List X) (p : Process W Q P V E) (next : V → Process W Q P V E)
        (handle : E → Process W Q P V E)
        → Ends mid caught before p
        → ((l : List X) (v : V) → mid l → Ends returns throws l (next v))
        → ((l : List X) (e : E) → caught l → Ends returns throws l (handle e))
        → Ends returns throws before (settle p next handle)
    unfolding Ends settle beside
    settle-Ends before idle next handle h n c = tt
    settle-Ends before (ret v z) next handle (h, e) n c =
        subst (λ y. Ends returns throws before (beside y (next v))) (sym e) (n before v h)
    settle-Ends before (throw x z) next handle (h, e) n c =
        subst (λ y. Ends returns throws before (beside y (handle x))) (sym e) (c before x h)
    settle-Ends before (sync f g) next handle h n c =
        λ w. settle-Ends before (g w) next handle (h w) n c
    settle-Ends before (call q g) next handle h n c =
        λ r. settle-Ends (before ++ pick q) (g r) next handle (h r) n c
    settle-Ends before (choose a b) next handle h n c =
        (settle-Ends before a next handle h.0 n c, settle-Ends before b next handle h.1 n c)

  pub >>-Ends :
      (mid returns throws : List X → Type 0) (before : List X) (p q : Process W Q P V E)
      → Ends mid throws before p
      → ((l : List X) → mid l → Ends returns throws l q)
      → Ends returns throws before (p >> q)
  unfolding ◌>>◌ ◌>>=◌ Ends
  >>-Ends mid returns throws before p q h n =
      settle-Ends mid throws returns throws before p (λ _. q) (λ e. throw e idle) h (λ l v m. n l m)
        (λ l e m. (m, refl))

  pub run-Ends :
      (returns throws : List X → Type 0) (before : List X) (p : Process W Q P V E) (w : W)
      (es : List (Event P))
      → Ends returns throws before p
      → Reached returns throws (before ++ picked pick (run p w es).calls) (run p w es).status
  unfolding run Ends
  run-Ends returns throws before idle w es h = tt
  run-Ends returns throws before (ret v z) w es h = stop returns before h.0
  run-Ends returns throws before (throw e z) w es h = stop throws before h.0
  run-Ends returns throws before (sync f g) w es h =
      run-Ends returns throws before (g w) (f w) es (h w)
  run-Ends returns throws before (call q g) w (answer r ∷ es) h =
      subst (λ l. Reached returns throws l (run (g r) w es).status)
        (append_assoc before (pick q) (picked pick (run (g r) w es).calls))
        (run-Ends returns throws (before ++ pick q) (g r) w es (h r))
  run-Ends returns throws before (call q g) w _ h = tt
  run-Ends returns throws before (choose a b) w (left ∷ es) h =
      run-Ends returns throws before a w es h.0
  run-Ends returns throws before (choose a b) w (right ∷ es) h =
      run-Ends returns throws before b w es h.1
  run-Ends returns throws before (choose a b) w _ h = tt
