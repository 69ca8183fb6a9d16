-- ===== src/Etcd/Threads.antt =====
-- The watcher's thread and the threads of the RPC server on one `ServiceManager`: `onServiceOnline`
-- and `onServiceOffline` of code/server/common/channel.hpp release the manager's mutex before they
-- take that of the service, and calls of `choose` run in between.
pub mod Regions
pub mod View
pub mod Atomic
pub mod Live
use cpp_microservice_im.Base.{
  ℕ, ◌+◌, ◌≡◌, Str, Bool, true, false, Option, none, some, List, [], ◌∷◌, ◌++◌, contains,
  if◌then◌else◌,
}
use cpp_microservice_im.Base.Dict
use cpp_microservice_im.Channel.{
  Channel, ServiceManager, append, remove, get_service_name, obtain, choose_service,
}
use cpp_microservice_im.Etcd.{Event, put, delete, other}

-- What is left to do on the service after the manager's mutex is released. A service is never
-- replaced in the map, so its name stands for the pointer to it.
pub data Task : Type 0 where
  appending : Str → Channel → Task
  removing : Str → Str → Task

-- The first region. An event of a service that is not followed ends here; so does a node whose
-- channel could not be set up, once the service is in the map.
module _ (failed : ℕ → Str → Bool) where
  unfoldable pub task_of : Event → ServiceManager → Option Task
  task_of (put kv) m =
      if contains (get_service_name kv.key) m.follow_services
      then if failed m.next kv.value
        then none
        else some
            (appending (get_service_name kv.key) (record { address = m.next; host = kv.value }))
      else none
  task_of (delete kv) m =
      if contains (get_service_name kv.key) m.follow_services
      then elim (Dict.lookup (get_service_name kv.key) m.services) [
        | none ↦ none
        | some service ↦ some (removing (get_service_name kv.key) kv.value)
      ]
      else none
  task_of other m = none

-- The manager after the first region; the channel is allocated before the second.
unfoldable pub find_service : Event → ServiceManager → ServiceManager
find_service (put kv) m =
    if contains (get_service_name kv.key) m.follow_services
    then record m {
      services =
          Dict.assign (get_service_name kv.key) (obtain (get_service_name kv.key) m) m.services;
      next = m.next + 1;
    }
    else m
find_service (delete kv) m = m
find_service other m = m

-- The second region, under the mutex of the service.
unfoldable pub finish : Option Task → ServiceManager → ServiceManager
finish none m = m
finish (some (appending name c)) m = record m {
  services = Dict.assign name (append false c.address c.host (obtain name m)) m.services;
}
finish (some (removing name host)) m = record m {
  services = Dict.assign name (remove host (obtain name m)) m.services;
}

-- `handled` are the events whose second region is over, oldest first; `current` is the event whose
-- second region is still to come.
pub record System : Type 0 where
  pub manager : ServiceManager
  pub handled : List Event
  pub current : Option (Event × Option Task)

pub data Step (failed : ℕ → Str → Bool) (s : System) : System → Type 0 where
  begin :
      (ev : Event)
      → s.current ≡ none
      → Step failed s (record s {
        manager = find_service ev s.manager;
        current = some (ev, task_of failed ev s.manager);
      })
  commit :
      (ev : Event) (t : Option Task)
      → s.current ≡ some (ev, t)
      → Step failed s (record {
        manager = finish t s.manager;
        handled = s.handled ++ (ev ∷ []);
        current = none;
      })
  call : (name : Str) → Step failed s (record s { manager = (choose_service name s.manager).1 })

pub data Reach (failed : ℕ → Str → Bool) (m : ServiceManager) : System → Type 0 where
  start : Reach failed m (record { manager = m; handled = []; current = none })
  later : {s t : System} → Reach failed m s → Step failed s t → Reach failed m t
