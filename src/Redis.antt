-- ===== src/Redis.antt =====
-- code/server/common/data_redis.hpp: the three views of one Redis database. The server is a
-- parameter; a call of it may throw `sw::redis::Error`, which no view catches.
pub mod Clock
use cpp_microservice_im.Base.{
  ℕ, arith, ◌≡◌, Str, Bool, true, false, Option, none, some, [], ◌==◌, if◌then◌else◌,
}
use cpp_microservice_im.Base.Outcome.{done, crash, exception, M, pure, ◌>>=◌}

-- `none` is an exception. `set_for` expires after so many milliseconds.
pub record Redis : Type 1 where
  pub State : Type 0
  pub set : Str → Str → State → Option State
  pub set_for : Str → Str → ℕ → State → Option State
  pub del : Str → State → Option State
  pub get : Str → State → Option (Option Str)

-- What the program relies on. A state has a content; a value that was set is the content of its key
-- alone, a deleted key has none, and what `get` answers, if it answers, is the content.
pub record IsLawful (R : Redis) : Type 0 where
  pub content : R.State → Str → Option Str
  pub get-content : (k : Str) (s : R.State) (r : Option Str) → R.get k s ≡ some r → r ≡ content s k
  pub content-set :
      (j k v : Str) (s t : R.State)
      → R.set k v s ≡ some t
      → content t j ≡ (if j == k then some v else content s j)
  pub content-set_for :
      (j k v : Str) (ms : ℕ) (s t : R.State)
      → R.set_for k v ms s ≡ some t
      → content t j ≡ (if j == k then some v else content s j)
  pub content-del :
      (j k : Str) (s t : R.State)
      → R.del k s ≡ some t
      → content t j ≡ (if j == k then none else content s j)

-- `RedisClientFactory::create`: the options that a client is made with.
pub record ConnectionOptions : Type 0 where
  pub host : Str
  pub port : ℕ
  pub db : ℕ
  pub keep_alive : Bool

unfoldable pub redis_create : Str → ℕ → ℕ → Bool → ConnectionOptions
redis_create host port db keep_alive = record {
  host = host;
  port = port;
  db = db;
  keep_alive = keep_alive;
}

module _ (R : Redis) where
  -- The state after a command, or the exception.
  unfoldable pub command : (R.State → Option R.State) → M R.State (Unit {0})
  command f s = elim (f s) [ none ↦ (crash exception, s) | some t ↦ (done tt, t) ]

  unfoldable pub get_value : Str → M R.State (Option Str)
  get_value k s = elim (R.get k s) [ none ↦ (crash exception, s) | some r ↦ (done r, s) ]

module _ (R : Redis) where
  unfoldable pub session_append : Str → Str → M R.State (Unit {0})
  unfolding command
  session_append ssid uid = command R (R.set ssid uid)

  unfoldable pub session_remove : Str → M R.State (Unit {0})
  unfolding command
  session_remove ssid = command R (R.del ssid)

  unfoldable pub session_uid : Str → M R.State (Option Str)
  unfolding get_value
  session_uid ssid = get_value R ssid

  unfoldable pub status_append : Str → M R.State (Unit {0})
  unfolding command
  status_append uid = command R (R.set uid [])

  unfoldable pub status_remove : Str → M R.State (Unit {0})
  unfolding command
  status_remove uid = command R (R.del uid)

  abbrev is_some : Option Str → Bool
  is_some none = false
  is_some (some v) = true

  unfoldable pub status_exists : Str → M R.State Bool
  unfolding get_value
  status_exists uid = do ret ← get_value R uid; pure (is_some ret)

  -- The default time of `append`.
  abbrev pub code_ttl : ℕ
  code_ttl = 60000

  unfoldable pub codes_append : Str → Str → M R.State (Unit {0})
  unfolding command
  codes_append cid code = command R (R.set_for cid code code_ttl)

  unfoldable pub codes_remove : Str → M R.State (Unit {0})
  unfolding command
  codes_remove cid = command R (R.del cid)

  unfoldable pub codes_code : Str → M R.State (Option Str)
  unfolding get_value
  codes_code cid = get_value R cid

  pub codes_code_known :
      (cid : Str) (s : R.State) (r : Option Str)
      → R.get cid s ≡ some r
      → codes_code cid s ≡ (done r, s)
  unfolding codes_code
  codes_code_known cid s r known = ground arith
