-- ===== src/Tests/Threads.antt =====
-- A watcher's thread and a caller's on one manager.
use cpp_microservice_im.Base.{
  ◌<◌, ◌^◌, ◌≡◌, ◌≢◌, sym, subst, refl, none, some, [], ◌∷◌, length, contains, true, arith,
}
use cpp_microservice_im.Channel.{Channel, choose, choose_service, get_service_name}
use cpp_microservice_im.Builder.{make_discovery_object, user_server_builder}
use cpp_microservice_im.Builder.Serving.{make_discovery_object-live}
use cpp_microservice_im.Channel.{ServiceManager, declared, on_service_online}
use cpp_microservice_im.Channel.Bounds.{choose-In}
use cpp_microservice_im.Channel.Manager.{get_service_name_lem}
use cpp_microservice_im.Channel.Rotation.{In}
use cpp_microservice_im.Etcd.{Event, put, delete, Listing, discovery}
use cpp_microservice_im.Etcd.Refine.{live_after}
use cpp_microservice_im.Etcd.Threads.{
  System, Reach, start, later, begin, commit, call, task_of, find_service, finish,
}
use cpp_microservice_im.Etcd.Threads.Atomic.{after, interleaved_atomic}
use cpp_microservice_im.Etcd.Threads.View.{Agrees}
use cpp_microservice_im.Tests.Channels.{file, here, key, manager, two_nodes, up}

choose-In_example :
    (two_nodes.channels ≢ []
      → (c : Channel) × ((choose two_nodes).0 ≡ some c) × In c two_nodes.channels)
    × (two_nodes.channels ≡ [] → choose two_nodes ≡ (none, two_nodes))
choose-In_example = choose-In two_nodes (ground arith)

abbrev arrival : Event
arrival = put (record { key = key; value = here })

-- The node comes up, and a caller runs between the two regions of its handler.
abbrev half : System
half = record {
  manager = (choose_service file (find_service arrival manager)).1;
  handled = [];
  current = some (arrival, task_of up arrival manager);
}

abbrev whole : System
whole = record {
  manager = finish (task_of up arrival manager) half.manager;
  handled = arrival ∷ [];
  current = none;
}

reached : Reach up manager whole
reached =
    later (later (later start (begin arrival refl)) (call file))
      (commit arrival (task_of up arrival manager) refl)

interleaved_atomic_example : Agrees whole.manager (after up manager (arrival ∷ []))
interleaved_atomic_example = interleaved_atomic up manager whole reached refl

named : get_service_name key ≡ file
named = (get_service_name_lem file here ((λ e. absurd (ground arith)), tt)).0

one_live : live_after file (arrival ∷ []) [] ≡ here ∷ []
unfolding live_after
one_live = ground (arith, named)

abbrev list : Listing
list = record { is_ok = true; entries = record { key = key; value = here } ∷ [] }

abbrev listed_manager : ServiceManager
listed_manager =
    discovery (some (on_service_online up)) list
      (declared file (record { follow_services = []; services = []; next = 0 }))

set_up :
    (make_discovery_object up (λ host base. list) [] [] file user_server_builder).1.mm_channels
    ≡ some listed_manager
unfolding make_discovery_object
set_up = refl

-- A caller runs while the first region of the next event is over.
abbrev departure : Event
departure = delete (record { key = key; value = b'x' ∷ [] })

abbrev calling : System
calling = record {
  manager = (choose_service file (find_service departure listed_manager)).1;
  handled = [];
  current = some (departure, task_of up departure listed_manager);
}

make_discovery_object-live_example :
    (c : Channel) × ((choose_service file calling.manager).0 ≡ some c)
    × (contains c.host (live_after file (arrival ∷ []) []) ≡ true)
unfolding contains
make_discovery_object-live_example =
    make_discovery_object-live up (λ a h. refl) (λ host base. list) [] [] file user_server_builder
      listed_manager calling set_up (later (later start (begin departure refl)) (call file))
      ((λ e. refl), tt) (λ e. absurd (ground (arith, one_live)))
      (subst (λ l. length l < 2 ^ 31) (sym one_live) (omega arith))
