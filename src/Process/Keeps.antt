-- ===== src/Process/Keeps.antt =====
-- What every run of a process keeps, proved from its parts.
use testy_mc_testface.Prelude.{Option, none, some}
use testy_mc_testface.Process.{
  Process, idle, ret, throw, sync, call, choose, both, mute, beside, settle, par, fail_if, race,
  ◌>>=◌, ◌>>◌, read,
}

module _ {W Q P V E : Type 0} (R : W → W → Type 0) where
  -- Each uninterrupted step of the process, whatever was answered before it, is one of `R`.
  unfoldable pub Keeps : Process W Q P V E → Type 0
  Keeps idle = Unit
  Keeps (ret v z) = Keeps z
  Keeps (throw e z) = Keeps z
  Keeps (sync f g) = ((w : W) → R w (f w)) × ((w : W) → Keeps (g w))
  Keeps (call a g) = (r : P) → Keeps (g r)
  Keeps (choose a b) = Keeps a × Keeps b

  pub ret-Keeps : (v : V) (z : Process W Q P V E) → Keeps z → Keeps (ret v z)
  unfolding Keeps
  ret-Keeps v z h = h

  pub throw-Keeps : (e : E) (z : Process W Q P V E) → Keeps z → Keeps (throw e z)
  unfolding Keeps
  throw-Keeps e z h = h

  pub sync-Keeps :
      (f : W → W) (g : W → Process W Q P V E)
      → ((w : W) → R w (f w))
      → ((w : W) → Keeps (g w))
      → Keeps (sync f g)
  unfolding Keeps
  sync-Keeps f g h k = (h, k)

  pub call-Keeps : (a : Q) (g : P → Process W Q P V E) → ((r : P) → Keeps (g r)) → Keeps (call a g)
  unfolding Keeps
  call-Keeps a g h = h

  pub both-Keeps : (p q : Process W Q P V E) → Keeps p → Keeps q → Keeps (both p q)
  unfolding Keeps both
  both-Keeps idle q hp hq = hq
  both-Keeps (ret v z) q hp hq = both-Keeps z q hp hq
  both-Keeps (throw e z) q hp hq = both-Keeps z q hp hq
  both-Keeps (sync f g) q hp hq = (hp.0, λ w. both-Keeps (g w) q (hp.1 w) hq)
  both-Keeps (choose a b) q hp hq = (both-Keeps a q hp.0 hq, both-Keeps b q hp.1 hq)
  both-Keeps (call a g) idle hp hq = hp
  both-Keeps (call a g) (ret v z) hp hq = both-Keeps (call a g) z hp hq
  both-Keeps (call a g) (throw e z) hp hq = both-Keeps (call a g) z hp hq
  both-Keeps (call a g) (sync f h) hp hq = (hq.0, λ w. both-Keeps (call a g) (h w) hp (hq.1 w))
  both-Keeps (call a g) (choose c d) hp hq =
      (both-Keeps (call a g) c hp hq.0, both-Keeps (call a g) d hp hq.1)
  both-Keeps (call a g) (call b h) hp hq =
      (λ r. both-Keeps (g r) (call b h) (hp r) hq, λ r. both-Keeps (call a g) (h r) hp (hq r))

  pub mute-Keeps : (p : Process W Q P V E) → Keeps p → Keeps (mute p)
  unfolding Keeps mute
  mute-Keeps idle hp = tt
  mute-Keeps (ret v z) hp = mute-Keeps z hp
  mute-Keeps (throw e z) hp = mute-Keeps z hp
  mute-Keeps (sync f g) hp = (hp.0, λ w. mute-Keeps (g w) (hp.1 w))
  mute-Keeps (choose a b) hp = (mute-Keeps a hp.0, mute-Keeps b hp.1)
  mute-Keeps (call a g) hp = λ r. mute-Keeps (g r) (hp r)

  pub beside-Keeps : (p q : Process W Q P V E) → Keeps p → Keeps q → Keeps (beside p q)
  unfolding Keeps beside
  beside-Keeps idle q hp hq = hq
  beside-Keeps (ret v z) q hp hq = beside-Keeps z q hp hq
  beside-Keeps (throw e z) q hp hq = beside-Keeps z q hp hq
  beside-Keeps (sync f g) q hp hq = (hp.0, λ w. beside-Keeps (g w) q (hp.1 w) hq)
  beside-Keeps (choose a b) q hp hq = (beside-Keeps a q hp.0 hq, beside-Keeps b q hp.1 hq)
  beside-Keeps (call a g) idle hp hq = mute-Keeps (call a g) hp
  beside-Keeps (call a g) (ret v z) hp hq = both-Keeps (call a g) z hp hq
  beside-Keeps (call a g) (throw e z) hp hq = both-Keeps (call a g) z hp hq
  beside-Keeps (call a g) (sync f h) hp hq = (hq.0, λ w. beside-Keeps (call a g) (h w) hp (hq.1 w))
  beside-Keeps (call a g) (choose c d) hp hq =
      (beside-Keeps (call a g) c hp hq.0, beside-Keeps (call a g) d hp hq.1)
  beside-Keeps (call a g) (call b h) hp hq =
      (λ r. beside-Keeps (g r) (call b h) (hp r) hq, λ r. beside-Keeps (call a g) (h r) hp (hq r))

  pub settle-Keeps :
      (p : Process W Q P V E) (next : V → Process W Q P V E) (handle : E → Process W Q P V E)
      → Keeps p
      → ((v : V) → Keeps (next v))
      → ((e : E) → Keeps (handle e))
      → Keeps (settle p next handle)
  unfolding Keeps settle
  settle-Keeps idle next handle hp hn hh = tt
  settle-Keeps (ret v z) next handle hp hn hh = beside-Keeps z (next v) hp (hn v)
  settle-Keeps (throw e z) next handle hp hn hh = beside-Keeps z (handle e) hp (hh e)
  settle-Keeps (sync f g) next handle hp hn hh =
      (hp.0, λ w. settle-Keeps (g w) next handle (hp.1 w) hn hh)
  settle-Keeps (choose a b) next handle hp hn hh =
      (settle-Keeps a next handle hp.0 hn hh, settle-Keeps b next handle hp.1 hn hh)
  settle-Keeps (call a g) next handle hp hn hh = λ r. settle-Keeps (g r) next handle (hp r) hn hh

  pub >>=-Keeps :
      (p : Process W Q P V E) (next : V → Process W Q P V E)
      → Keeps p
      → ((v : V) → Keeps (next v))
      → Keeps (p >>= next)
  unfolding Keeps ◌>>=◌
  >>=-Keeps p next hp hn = settle-Keeps p next (λ e. throw e idle) hp hn (λ e. tt)

  pub >>-Keeps : (p q : Process W Q P V E) → Keeps p → Keeps q → Keeps (p >> q)
  unfolding ◌>>◌
  >>-Keeps p q hp hq = >>=-Keeps p (λ _. q) hp (λ _. hq)

  pub par-Keeps : (p q : Process W Q P V E) → Keeps p → Keeps q → Keeps (par p q)
  unfolding Keeps par
  par-Keeps idle q hp hq = >>=-Keeps q (λ _. idle) hq (λ _. tt)
  par-Keeps (ret v z) q hp hq = beside-Keeps z q hp hq
  par-Keeps (throw e z) q hp hq = both-Keeps z q hp hq
  par-Keeps (sync f g) q hp hq = (hp.0, λ w. par-Keeps (g w) q (hp.1 w) hq)
  par-Keeps (choose a b) q hp hq = (par-Keeps a q hp.0 hq, par-Keeps b q hp.1 hq)
  par-Keeps (call a g) idle hp hq = >>=-Keeps (call a g) (λ _. idle) hp (λ _. tt)
  par-Keeps (call a g) (ret v z) hp hq = beside-Keeps z (call a g) hq hp
  par-Keeps (call a g) (throw e z) hp hq = both-Keeps (call a g) z hp hq
  par-Keeps (call a g) (sync f h) hp hq = (hq.0, λ w. par-Keeps (call a g) (h w) hp (hq.1 w))
  par-Keeps (call a g) (choose c d) hp hq =
      (par-Keeps (call a g) c hp hq.0, par-Keeps (call a g) d hp hq.1)
  par-Keeps (call a g) (call b h) hp hq =
      (λ r. par-Keeps (g r) (call b h) (hp r) hq, λ r. par-Keeps (call a g) (h r) hp (hq r))

  pub fail_if-Keeps :
      (o : Option E) (z p : Process W Q P V E) → Keeps z → Keeps p → Keeps (fail_if o z p)
  unfolding Keeps fail_if
  fail_if-Keeps none z p hz hp = hp
  fail_if-Keeps (some e) z p hz hp = hz

  module _ (stay : (w : W) → R w w) where
    pub race-Keeps :
        (first later : W → Option E) (p : Process W Q P V E) → Keeps p → Keeps (race first later p)
    unfolding Keeps race
    race-Keeps first later idle hp = (stay, λ w. fail_if-Keeps (first w) idle idle tt tt)
    race-Keeps first later (ret v z) hp = (stay, λ w. fail_if-Keeps (first w) z (ret v z) hp hp)
    race-Keeps first later (throw e z) hp = (stay, λ w. fail_if-Keeps (first w) z (throw e z) hp hp)
    race-Keeps first later (sync f g) hp = (hp.0, λ w. race-Keeps first later (g w) (hp.1 w))
    race-Keeps first later (choose a b) hp =
        (race-Keeps first later a hp.0, race-Keeps first later b hp.1)
    race-Keeps first later (call a g) hp = (
      stay,
      λ w.
          fail_if-Keeps (first w) (call a g) (call a (λ r. race later later (g r))) hp
            (λ r. race-Keeps later later (g r) (hp r)),
    )

    pub read-Keeps : (g : W → Process W Q P V E) → ((w : W) → Keeps (g w)) → Keeps (read g)
    unfolding Keeps read
    read-Keeps g h = (stay, h)
