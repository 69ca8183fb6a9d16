-- ===== src/Tests/Queues.antt =====
-- A broker that keeps functions, and a loop with a callback that throws.
use cpp_microservice_im.Base.{false, true}
use cpp_microservice_im.Base.{
  ℕ, ◌≡◌, refl, Str, Bool, true, false, ◌&&◌, Option, none, some, List, [], ◌∷◌, ◌++◌, arith,
  if◌then◌else◌, ◌==◌,
}
use cpp_microservice_im.Base.Outcome.{done, crash, exception}
use cpp_microservice_im.Mq.{
  Amqp, MessageCallback, Notice, succeeded, failed, received, declare_components, publish,
  default_key, run,
}
use cpp_microservice_im.Mq.Delivery.{Cut, run_lem}
use cpp_microservice_im.Mq.Routing.{IsBroker, publish-declare_components}

record Exchanges : Type 0 where
  type_of : Str → Option ℕ
  is_queue : Str → Bool
  bound : Str → Str → Str → Bool
  messages : Str → List Str
  acked : List ℕ

abbrev broker : Amqp
broker = record {
  State = Exchanges;
  direct = 1;
  declare_exchange = λ e t s. record s { type_of = λ x. if x == e then some t else s.type_of x };
  declare_queue = λ q s. record s { is_queue = λ x. if x == q then true else s.is_queue x };
  bind_queue = λ e q k s. record s {
    bound = λ e' q' k'. if e' == e && (q' == q && k' == k) then true else s.bound e' q' k';
  };
  publish = λ e k m s. (
    true,
    record s { messages = λ q. if s.bound e q k then s.messages q ++ (m ∷ []) else s.messages q },
  );
  consume = λ q tag s. s;
  ack = λ tag s. record s { acked = s.acked ++ (tag ∷ []) };
}

broker-IsBroker : IsBroker broker
broker-IsBroker = record {
  type_of = λ e s. s.type_of e;
  is_queue = λ q s. s.is_queue q;
  bound = λ e q k s. s.bound e q k;
  messages = λ q s. s.messages q;
  type_of-declare_exchange = λ e t s n. ground arith;
  type_of-declare_queue = λ e q s. refl;
  is_queue-declare_queue = λ q s. ground arith;
  type_of-bind_queue = λ e q k s. refl;
  bound-bind_queue = λ e q k t s f g. ground arith;
  messages-publish = λ e q k m s t f g h. ground arith;
}

abbrev empty : Exchanges
empty = record {
  type_of = λ e. none;
  is_queue = λ q. false;
  bound = λ e q k. false;
  messages = λ q. [];
  acked = [];
}

abbrev name : Str
name = b'n' ∷ []

abbrev word : Str
word = b'w' ∷ []

publish-declare_components_example :
    let s' = declare_components broker name word default_key 1 empty in
    (publish broker name word default_key s').1.messages word ≡ s'.messages word ++ (word ∷ [])
unfolding publish broker-IsBroker
publish-declare_components_example =
    publish-declare_components broker broker-IsBroker name word word empty refl refl

-- It keeps the messages, and throws on an empty one.
abbrev keep : MessageCallback (List Str)
keep [] s = (crash exception, s)
keep (c ∷ body) s = (done tt, s ++ ((c ∷ body) ∷ []))

abbrev notices : List (Notice (List Str))
notices =
    succeeded
    ∷ received keep (record { body = word; delivery_tag = 7 })
    ∷ received keep (record { body = []; delivery_tag = 8 })
    ∷ failed
    ∷ []

run_lem_example : Cut broker notices empty []
run_lem_example = run_lem broker notices empty []

ran : (run broker notices (empty, [])).1 ≡ (record empty { acked = 7 ∷ [] }, word ∷ [])
unfolding run
ran = refl

-- A wake-up that is lost, and no error.
abbrev calm : List (Notice (List Str))
calm = received keep (record { body = word; delivery_tag = 7 }) ∷ []
