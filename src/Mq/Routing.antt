-- ===== src/Mq/Routing.antt =====
-- Where a published message goes.
use cpp_microservice_im.Base.{
  ℕ, ◌≡◌, ap, ◌∙◌, Str, Bool, true, Option, none, some, List, [], ◌∷◌, ◌++◌, arith,
}
use cpp_microservice_im.Mq.{Amqp, declare_components, publish, default_key}

-- What a broker does with the requests of a channel, which it serves in order. Declaring an exchange
-- that is not there gives it its type; declaring a queue leaves the exchanges; a declared queue can be
-- bound to a declared exchange under a key; and a direct exchange puts a message that was taken behind
-- those that came to a queue before, where the queue is bound under the message's key. `messages` are
-- all that ever came to a queue.
pub record IsBroker (A : Amqp) : Type 0 where
  pub type_of : Str → A.State → Option ℕ
  pub is_queue : Str → A.State → Bool
  pub bound : Str → Str → Str → A.State → Bool
  pub messages : Str → A.State → List Str
  pub type_of-declare_exchange :
      (e : Str) (t : ℕ) (s : A.State)
      → type_of e s ≡ none
      → type_of e (A.declare_exchange e t s) ≡ some t
  pub type_of-declare_queue :
      (e q : Str) (s : A.State) → type_of e (A.declare_queue q s) ≡ type_of e s
  pub is_queue-declare_queue : (q : Str) (s : A.State) → is_queue q (A.declare_queue q s) ≡ true
  pub type_of-bind_queue :
      (e q k : Str) (s : A.State) → type_of e (A.bind_queue e q k s) ≡ type_of e s
  pub bound-bind_queue :
      (e q k : Str) (t : ℕ) (s : A.State)
      → type_of e s ≡ some t
      → is_queue q s ≡ true
      → bound e q k (A.bind_queue e q k s) ≡ true
  pub messages-publish :
      (e q k m : Str) (s t : A.State)
      → type_of e s ≡ some A.direct
      → bound e q k s ≡ true
      → A.publish e k m s ≡ (true, t)
      → messages q t ≡ messages q s ++ (m ∷ [])

module _ (A : Amqp) (L : IsBroker A) where
  -- On a lawful broker, once an exchange that was not there and a queue are declared with the
  -- default key and type, a message that is published with the default key and taken by the channel
  -- stands behind those that came to the queue before.
  pub publish-declare_components :
      (exchange queue msg : Str) (s : A.State)
      → L.type_of exchange s ≡ none
      → let s' = declare_components A exchange queue default_key A.direct s in
        (publish A exchange msg default_key s').0 ≡ true
        → L.messages queue (publish A exchange msg default_key s').1
          ≡ L.messages queue s' ++ (msg ∷ [])
  unfolding declare_components publish
  publish-declare_components exchange queue msg s absent taken =
      let a = A.declare_exchange exchange A.direct s in
      let b = A.declare_queue queue a in
      let c = A.bind_queue exchange queue default_key b in
      let typed =
        L.type_of-declare_queue exchange queue a
        ∙ L.type_of-declare_exchange exchange A.direct s absent in
      let ok : (A.publish exchange default_key msg c).0 ≡ true = ground arith in
      ground (
        arith,
        L.messages-publish exchange queue default_key msg c (A.publish exchange default_key msg c).1
            (L.type_of-bind_queue exchange queue default_key b ∙ typed)
            (L.bound-bind_queue exchange queue default_key A.direct b typed
              (L.is_queue-declare_queue queue a))
            (ap (λ b. (b, (A.publish exchange default_key msg c).1)) ok),
      )
