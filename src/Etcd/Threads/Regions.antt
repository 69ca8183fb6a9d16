-- ===== src/Etcd/Threads/Regions.antt =====
-- The two regions of a handler, one right after the other.

use cpp_microservice_im.Base.{
  ℕ, ◌+◌, ◌≡◌, refl, Str, Bool, true, false, some, arith, Option-cases, inl, inr,
}
use cpp_microservice_im.Base.Dict
use cpp_microservice_im.Channel.{
  ServiceChannel, ServiceManager, append, get_service_name, obtain, on_service_online,
  on_service_offline,
}
use cpp_microservice_im.Etcd.{Event, put, delete, other, handle, notify}
use cpp_microservice_im.Etcd.Threads.{task_of, find_service, finish}

-- The object of a service that was put in the map, the next address apart.
obtain_assigned :
    (name : Str) (service : ServiceChannel) (m : ServiceManager)
    → obtain name (record m { services = Dict.assign name service m.services; next = m.next + 1 })
      ≡ service
unfolding obtain
obtain_assigned name service m = ground (arith, Dict.lookup-assign name name service m.services)

obtain_known :
    (name : Str) (m : ServiceManager) (service : ServiceChannel)
    → Dict.lookup name m.services ≡ some service
    → obtain name m ≡ service
unfolding obtain
obtain_known name m service e = rw (e, obtain) refl

append_failed : (a : ℕ) (host : Str) (sc : ServiceChannel) → append true a host sc ≡ sc
unfolding append
append_failed a host sc = refl

module _ (failed : ℕ → Str → Bool) where
  -- An event, handled in one go.
  abbrev pub operation : Event → ServiceManager → ServiceManager
  operation = handle (some (on_service_online failed)) (some on_service_offline)

  -- The two regions, one right after the other, are the operation.
  pub regions_lem :
      (ev : Event) (m : ServiceManager)
      → finish (task_of failed ev m) (find_service ev m) ≡ operation ev m
  unfolding finish task_of find_service handle notify on_service_online on_service_offline
  regions_lem (put kv) m =
      let name = get_service_name kv.key in
      let old = obtain name m in
      ground (
        arith,
        obtain_assigned name old m,
        append_failed m.next kv.value old,
        Dict.assign_twice name (append false m.next kv.value old) old m.services,
      )
  regions_lem (delete kv) m =
      elim (Option-cases (Dict.lookup (get_service_name kv.key) m.services)) [
        | inl e ↦ ground arith
        | inr (service, e) ↦ ground (arith, obtain_known (get_service_name kv.key) m service e)
      ]
  regions_lem other m = refl
