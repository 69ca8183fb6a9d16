-- ===== src/Redis/Clock.antt =====
-- The time that redis keeps a key.
use cpp_microservice_im.Base.{ℕ, ◌≡◌, Str, Option, none, some, ltb, if◌then◌else◌, ◌==◌}
use cpp_microservice_im.Redis.{Redis, IsLawful}

-- `lives` is the milliseconds that a key has left, where its time is limited, and `pass` is redis so
-- many milliseconds later, without commands in between. `set` keeps a key without a limit, `set_for` so
-- long, and a key whose time is over is gone.
pub record HasClock (R : Redis) (L : IsLawful R) : Type 0 where
  pub lives : R.State → Str → Option ℕ
  pub pass : ℕ → R.State → R.State
  pub lives-set :
      (j k v : Str) (s t : R.State)
      → R.set k v s ≡ some t
      → lives t j ≡ (if j == k then none else lives s j)
  pub lives-set_for :
      (j k v : Str) (ms : ℕ) (s t : R.State)
      → R.set_for k v ms s ≡ some t
      → lives t j ≡ (if j == k then some ms else lives s j)
  pub content-pass :
      (j : Str) (n : ℕ) (s : R.State)
      → L.content (pass n s) j ≡ (elim (lives s j) [
        | none ↦ L.content s j
        | some ms ↦ if ltb n ms then L.content s j else none
      ])
