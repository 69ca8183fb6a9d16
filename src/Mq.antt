-- ===== src/Mq.antt =====
-- code/server/common/rabbitmq.hpp: `MQClient`. The channel of AMQP-CPP and the broker behind it are
-- parameters; the loop's thread is a sequence of the calls that the library makes of the handlers.
pub mod Delivery
pub mod Routing
pub mod Shutdown
use cpp_microservice_im.Base.{ℕ, Str, Bool, true, false, List, [], ◌∷◌, ◌++◌, if◌then◌else◌, utf8}
use cpp_microservice_im.Base.Outcome.{Outcome, done, crash, Fault, M}

-- `AMQP::TcpChannel`: all but `publish` only send a request; `direct` is
-- `AMQP::ExchangeType::direct`.
pub record Amqp : Type 1 where
  pub State : Type 0
  pub direct : ℕ
  pub declare_exchange : Str → ℕ → State → State
  pub declare_queue : Str → State → State
  pub bind_queue : Str → Str → Str → State → State
  pub publish : Str → Str → Str → State → Bool × State
  pub consume : Str → Str → State → State
  pub ack : ℕ → State → State

-- A callback on its owner's state; it may throw.
abbrev pub MessageCallback : Type 0 → Type 0
MessageCallback S = Str → M S (Unit {0})

pub record Message : Type 0 where
  pub body : Str
  pub delivery_tag : ℕ

-- What the library tells the handlers: an `onSuccess`, an `onError`, an `onReceived` of a `consume`
-- with this callback, and the end of the loop that the destructor asks for.
pub data Notice (S : Type 0) : Type 0 where
  succeeded failed woken : Notice S
  received : MessageCallback S → Message → Notice S

-- How the loop's thread stands: it waits, `ev_break` ended it, an `onError` ended the process by
-- `exit(0)`, or an exception left a callback.
pub data Ending : Type 0 where
  waiting broken exited : Ending
  thrown : Fault → Ending

-- The text that the constructor connects to.
pub amqp_url : Str → Str → Str → Str
amqp_url user passwd host =
    utf8 "amqp://" ++ user ++ utf8 ":" ++ passwd ++ utf8 "@" ++ host ++ utf8 "/"

abbrev pub default_key : Str
default_key = utf8 "routing_key"

module _ (A : Amqp) where
  unfoldable pub declare_components : Str → Str → Str → ℕ → A.State → A.State
  declare_components exchange queue routing_key exchange_type channel =
      A.bind_queue exchange queue routing_key
        (A.declare_queue queue (A.declare_exchange exchange exchange_type channel))

  unfoldable pub publish : Str → Str → Str → A.State → Bool × A.State
  publish exchange msg routing_key channel =
      let (ret, channel') = A.publish exchange routing_key msg channel in
      if ret then (true, channel') else (false, channel')

  unfoldable pub consume : Str → A.State → A.State
  consume queue channel = A.consume queue (utf8 "consume-tag") channel

  module _ {S : Type 0} where
    -- The handler that `consume` registers: the callback, and then the acknowledgement.
    unfoldable pub on_received : MessageCallback S → Message → M (A.State × S) (Unit {0})
    on_received cb message (channel, s) =
        let (o, s') = cb message.body s in
        elim o [
          | done _ ↦ (done tt, (A.ack message.delivery_tag channel, s'))
          | crash e ↦ (crash e, (channel, s'))
        ]

    -- `ev_run`
    unfoldable pub run : List (Notice S) → A.State × S → Ending × (A.State × S)
    unfolding on_received
    run [] x = (waiting, x)
    run (succeeded ∷ ns) x = run ns x
    run (failed ∷ ns) x = (exited, x)
    run (woken ∷ ns) x = (broken, x)
    run (received cb message ∷ ns) x =
        let (o, x') = on_received cb message x in
        elim o [ done _ ↦ run ns x' | crash e ↦ (thrown e, x') ]

    -- The destructor: `ev_async_start` and `ev_async_send`, and the loop's thread from then on, for which
    -- `join` waits. libev lets no other thread start a watcher on a loop that runs: `heard` says whether
    -- the loop came to know of it, so that the wake-up ends it, and else the wake-up is lost. The notices
    -- that come before are handled first; others may come after.
    unfoldable pub destroy :
        Bool → List (Notice S) → List (Notice S) → A.State × S → Ending × (A.State × S)
    unfolding run
    destroy heard earlier later x = run (earlier ++ (if heard then woken ∷ later else later)) x
