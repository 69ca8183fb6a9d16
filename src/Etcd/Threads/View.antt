-- ===== src/Etcd/Threads/View.antt =====
-- Managers that are the same but for the counters of their services.

use cpp_microservice_im.Base.{
  ℕ, ◌+◌, ◌≡◌, refl, sym, ap, ◌∙◌, Str, Bool, false, Option, none, some, contains, arith,
  Option-cases, Bool-cases, inl, inr,
}
use cpp_microservice_im.Base.Dict
use cpp_microservice_im.Channel.{
  ServiceChannel, ServiceManager, append, remove, choose, get_service_name, obtain, choose_service,
  service_channel,
}
use cpp_microservice_im.Etcd.{Event, put, delete, other}
use cpp_microservice_im.Etcd.Threads.{Task, appending, removing, task_of, find_service, finish}

-- A service without its counter.
abbrev pub strip : ServiceChannel → ServiceChannel
strip sc = record sc { index = 0 }

abbrev pub view : Str → ServiceManager → Option ServiceChannel
view name m = elim (Dict.lookup name m.services) [ none ↦ none | some sc ↦ some (strip sc) ]

-- The managers are the same but for the counters of the services.
pub record Agrees (m a : ServiceManager) : Type 0 where
  pub followed : m.follow_services ≡ a.follow_services
  pub counted : m.next ≡ a.next
  pub viewed : (name : Str) → view name m ≡ view name a

strip-obtain :
    (name : Str) (m : ServiceManager)
    → strip (obtain name m) ≡ elim (view name m) [ none ↦ service_channel name | some sc ↦ sc ]
unfolding obtain
strip-obtain name m = ground arith

pub Agrees-obtain :
    (m a : ServiceManager) (name : Str) → Agrees m a → strip (obtain name m) ≡ strip (obtain name a)
Agrees-obtain m a name g =
    strip-obtain name m
    ∙ ap (λ o. elim o [ none ↦ service_channel name | some sc ↦ sc ]) (g.viewed name)
    ∙ sym (strip-obtain name a)

-- Assigning services that are the same but for the counters.
Agrees-assign :
    (m a : ServiceManager) (name : Str) (x y : ServiceChannel) (j k : ℕ)
    → Agrees m a
    → strip x ≡ strip y
    → j ≡ k
    → Agrees
        (record m { services = Dict.assign name x m.services; next = j })
        (record a { services = Dict.assign name y a.services; next = k })
Agrees-assign m a name x y j k g e q = record {
  followed = g.followed;
  counted = q;
  viewed = λ n. ground (
    arith,
    g.viewed n,
    Dict.lookup-assign n name x m.services,
    Dict.lookup-assign n name y a.services,
  );
}

strip-append :
    (address : ℕ) (host : Str) (sc : ServiceChannel)
    → strip (append false address host sc) ≡ append false address host (strip sc)
unfolding append
strip-append address host sc = refl

strip-remove : (host : Str) (sc : ServiceChannel) → strip (remove host sc) ≡ remove host (strip sc)
unfolding remove
strip-remove host sc = ground arith

strip-choose : (sc : ServiceChannel) → strip (choose sc).1 ≡ strip sc
unfolding choose
strip-choose sc = ground arith

pub finish-Agrees :
    (t : Option Task) (m a : ServiceManager) → Agrees m a → Agrees (finish t m) (finish t a)
unfolding finish
finish-Agrees none m a g = g
finish-Agrees (some (appending name c)) m a g =
    Agrees-assign m a name _ _ m.next a.next g
      (strip-append c.address c.host (obtain name m)
        ∙ ap (append false c.address c.host) (Agrees-obtain m a name g)
        ∙ sym (strip-append c.address c.host (obtain name a)))
      g.counted
finish-Agrees (some (removing name host)) m a g =
    Agrees-assign m a name _ _ m.next a.next g
      (strip-remove host (obtain name m)
        ∙ ap (remove host) (Agrees-obtain m a name g)
        ∙ sym (strip-remove host (obtain name a)))
      g.counted

pub find_service-Agrees :
    (ev : Event) (m a : ServiceManager)
    → Agrees m a
    → Agrees (find_service ev m) (find_service ev a)
unfolding find_service
find_service-Agrees (put kv) m a g =
    let name = get_service_name kv.key in
    let put_in =
      Agrees-assign m a name _ _ (m.next + 1) (a.next + 1) g (Agrees-obtain m a name g)
        (ap (λ n. n + 1) g.counted) in
    elim (Bool-cases (contains name m.follow_services)) [
      | inl e ↦ rw e (rw (sym (ap (contains name) g.followed) ∙ e) put_in)
      | inr e ↦ rw e (rw (sym (ap (contains name) g.followed) ∙ e) g)
    ]
find_service-Agrees (delete kv) m a g = g
find_service-Agrees other m a g = g

pub obtain-find_service :
    (name : Str) (ev : Event) (m : ServiceManager) → obtain name (find_service ev m) ≡ obtain name m
unfolding find_service obtain
obtain-find_service name (put kv) m =
    let n = get_service_name kv.key in
    ground (arith, Dict.lookup-assign name n (obtain n m) m.services)
obtain-find_service name (delete kv) m = refl
obtain-find_service name other m = refl

pub task_of-Agrees :
    (failed : ℕ → Str → Bool) (ev : Event) (m a : ServiceManager)
    → Agrees m a
    → task_of failed ev m ≡ task_of failed ev a
unfolding task_of
task_of-Agrees failed (put kv) m a g = ground (arith, g.followed, g.counted)
task_of-Agrees failed (delete kv) m a g =
    ground (arith, g.followed, g.viewed (get_service_name kv.key))
task_of-Agrees failed other m a g = refl

choose_service-view :
    (name n : Str) (m : ServiceManager) → view n (choose_service name m).1 ≡ view n m
unfolding choose_service
choose_service-view name n m = elim (Option-cases (Dict.lookup name m.services)) [
  | inl e ↦ ground arith
  | inr (sc, e) ↦
      ground (arith, Dict.lookup-assign n name (choose sc).1 m.services, strip-choose sc)
]

pub choose_service-Agrees :
    (name : Str) (m a : ServiceManager) → Agrees m a → Agrees (choose_service name m).1 a
unfolding choose_service
choose_service-Agrees name m a g = record {
  followed = ground (arith, g.followed);
  counted = ground (arith, g.counted);
  viewed = λ n. choose_service-view name n m ∙ g.viewed n;
}
