-- ===== src/Process.antt =====
-- Asynchronous code as process trees: what an `async` function does until its promise settles.
--
-- A process runs without interruption up to its next `await`, which is a `call` to the outside world.
-- `sync f g` reads the shared state and goes on as `g` says, in the state that `f` gives. Where
-- several processes wait, `choose` leaves it to the event loop whose answer comes first. A promise
-- can settle while part of its work still runs behind it: `ret` and `throw` carry that part along.
pub mod Keeps
pub mod Runs
pub mod Ends
use testy_mc_testface.Prelude.{Option, none, some}

-- `W` is the shared state, `Q` and `P` calls and their answers, `V` and `E` values and errors.
pub data Process (W Q P V E : Type 0) : Type 0 where
  idle : Process W Q P V E
  ret : V → Process W Q P V E → Process W Q P V E
  throw : E → Process W Q P V E → Process W Q P V E
  sync : (W → W) → (W → Process W Q P V E) → Process W Q P V E
  call : Q → (P → Process W Q P V E) → Process W Q P V E
  choose : Process W Q P V E → Process W Q P V E → Process W Q P V E

module _ {W Q P V E : Type 0} where
  -- Both run to their ends, and their results are dropped.
  unfoldable pub both : Process W Q P V E → Process W Q P V E → Process W Q P V E
  both idle q = q
  both (ret v z) q = both z q
  both (throw e z) q = both z q
  both (sync f g) q = sync f (λ w. both (g w) q)
  both (choose a b) q = choose (both a q) (both b q)
  both (call a g) idle = call a g
  both (call a g) (ret v z) = both (call a g) z
  both (call a g) (throw e z) = both (call a g) z
  both (call a g) (sync f h) = sync f (λ w. both (call a g) (h w))
  both (call a g) (choose c d) = choose (both (call a g) c) (both (call a g) d)
  both (call a g) (call b h) =
      choose (call a (λ r. both (g r) (call b h))) (call b (λ r. both (call a g) (h r)))

  unfoldable pub mute : Process W Q P V E → Process W Q P V E
  mute idle = idle
  mute (ret v z) = mute z
  mute (throw e z) = mute z
  mute (sync f g) = sync f (λ w. mute (g w))
  mute (choose a b) = choose (mute a) (mute b)
  mute (call a g) = call a (λ r. mute (g r))

  -- The second, while the first runs behind it.
  unfoldable pub beside : Process W Q P V E → Process W Q P V E → Process W Q P V E
  unfolding both mute
  beside idle q = q
  beside (ret v z) q = beside z q
  beside (throw e z) q = beside z q
  beside (sync f g) q = sync f (λ w. beside (g w) q)
  beside (choose a b) q = choose (beside a q) (beside b q)
  beside (call a g) idle = mute (call a g)
  beside (call a g) (ret v z) = ret v (both (call a g) z)
  beside (call a g) (throw e z) = throw e (both (call a g) z)
  beside (call a g) (sync f h) = sync f (λ w. beside (call a g) (h w))
  beside (call a g) (choose c d) = choose (beside (call a g) c) (beside (call a g) d)
  beside (call a g) (call b h) =
      choose (call a (λ r. beside (g r) (call b h))) (call b (λ r. beside (call a g) (h r)))

  -- `const v = await p; …`, also behind a `try` whose `catch` is `handle`.
  unfoldable pub settle :
      Process W Q P V E → (V → Process W Q P V E) → (E → Process W Q P V E) → Process W Q P V E
  unfolding beside
  settle idle next handle = idle
  settle (ret v z) next handle = beside z (next v)
  settle (throw e z) next handle = beside z (handle e)
  settle (sync f g) next handle = sync f (λ w. settle (g w) next handle)
  settle (choose a b) next handle = choose (settle a next handle) (settle b next handle)
  settle (call a g) next handle = call a (λ r. settle (g r) next handle)

  infixl 5 ◌>>=◌ ◌>>◌
  unfoldable pub ◌>>=◌ : Process W Q P V E → (V → Process W Q P V E) → Process W Q P V E
  unfolding settle
  p >>= next = settle p next (λ e. throw e idle)

  unfoldable pub ◌>>◌ : Process W Q P V E → Process W Q P V E → Process W Q P V E
  unfolding ◌>>=◌
  p >> q = p >>= λ _. q

  -- `Promise.all` of two: the first rejection rejects it, and the other goes on behind.
  unfoldable pub par : Process W Q P V E → Process W Q P V E → Process W Q P V E
  unfolding ◌>>=◌
  par idle q = q >>= λ _. idle
  par (ret v z) q = beside z q
  par (throw e z) q = throw e (both z q)
  par (sync f g) q = sync f (λ w. par (g w) q)
  par (choose a b) q = choose (par a q) (par b q)
  par (call a g) idle = call a g >>= λ _. idle
  par (call a g) (ret v z) = beside z (call a g)
  par (call a g) (throw e z) = throw e (both (call a g) z)
  par (call a g) (sync f h) = sync f (λ w. par (call a g) (h w))
  par (call a g) (choose c d) = choose (par (call a g) c) (par (call a g) d)
  par (call a g) (call b h) =
      choose (call a (λ r. par (g r) (call b h))) (call b (λ r. par (call a g) (h r)))

  unfoldable pub fail_if : Option E → Process W Q P V E → Process W Q P V E → Process W Q P V E
  fail_if none z p = p
  fail_if (some e) z p = throw e z

  -- The process against a signal. `first` is thrown where the signal is aborted at the start, and
  -- `later` where it is seen aborted after an answer; the process then goes on behind.
  unfoldable pub race : (first later : W → Option E) → Process W Q P V E → Process W Q P V E
  unfolding fail_if
  race first later idle = sync (λ w. w) (λ w. fail_if (first w) idle idle)
  race first later (ret v z) = sync (λ w. w) (λ w. fail_if (first w) z (ret v z))
  race first later (throw e z) = sync (λ w. w) (λ w. fail_if (first w) z (throw e z))
  race first later (sync f g) = sync f (λ w. race first later (g w))
  race first later (choose a b) = choose (race first later a) (race first later b)
  race first later (call a g) =
      sync (λ w. w) (λ w. fail_if (first w) (call a g) (call a (λ r. race later later (g r))))

  unfoldable pub read : (W → Process W Q P V E) → Process W Q P V E
  read g = sync (λ w. w) g

  unfoldable pub write : (W → W) → V → Process W Q P V E
  write f v = sync f (λ _. ret v idle)
