-- ===== src/Tests/Channels.antt =====
-- The channels of one service of two nodes, and what etcd reports.
use cpp_microservice_im.Base.{
  contains, Str-discrete, ℕ_discrete, ℕ, ◌%◌, ◌≡◌, refl, Str, Bool, true, false, none, some, [],
  ◌∷◌, ◌++◌, map, arith,
}
use cpp_microservice_im.Base.Dict
use cpp_microservice_im.Channel.{
  ServiceChannel, ServiceManager, service_channel, append, remove, obtain,
}
use cpp_microservice_im.Channel.RoundRobin.{picks, rotate, picks_round}
use cpp_microservice_im.Channel.Rotation.{
  IsValid, In, opened, hosts_of, append-IsValid, service_channel-IsValid,
}
use cpp_microservice_im.Channel.Removal.{erase_first, hosts_of-remove, append_twice_stale}
use cpp_microservice_im.Etcd.{put, delete, Response, callback}
use cpp_microservice_im.Etcd.Refine.{live_after, Follows, callback-live}
use cpp_microservice_im.Channel.{on_service_online, on_service_offline}

abbrev pub file : Str
file = b'f' ∷ []

abbrev pub here : Str
here = b'h' ∷ []

abbrev there : Str
there = b't' ∷ []

abbrev empty : ServiceChannel
empty = service_channel file

abbrev pub two_nodes : ServiceChannel
two_nodes = record {
  index = 3;
  servicename = file;
  channels = opened 0 here ∷ opened 1 there ∷ [];
  hosts = [];
}

picks_round_example :
    picks 2 two_nodes
    ≡ (map some (rotate (3 % 2) two_nodes.channels), record two_nodes { index = 5 })
picks_round_example = picks_round two_nodes (ground arith)

one_node-IsValid : IsValid 1 (append false 0 here empty)
one_node-IsValid =
    append-IsValid false 0 here empty (Dict.lookup-nil here) (service_channel-IsValid 0 file)

hosts_of-remove_example :
    hosts_of (remove here (append false 0 here empty))
    ≡ erase_first here (hosts_of (append false 0 here empty))
hosts_of-remove_example = hosts_of-remove 1 here (append false 0 here empty) one_node-IsValid

known : Dict.lookup here (append false 0 here empty).hosts ≡ some (opened 0 here)
unfolding append Dict.lookup Dict.insert Dict.assign Str-discrete ℕ_discrete
known = refl

append_twice_stale_example :
    let twice = append false 1 here (append false 0 here empty) in
    let sc' = remove here twice in
    (Dict.lookup here twice.hosts ≡ some (opened 0 here))
    × (In (opened 0 here) twice.channels × (¬ In (opened 0 here) sc'.channels))
    × In (opened 1 here) sc'.channels
    × (hosts_of sc' ≡ erase_first here (hosts_of (append false 0 here empty)) ++ (here ∷ []))
    × (Dict.lookup here sc'.hosts ≡ none)
append_twice_stale_example =
    append_twice_stale 1 1 here (append false 0 here empty) one_node-IsValid (ground arith) known

abbrev pub key : Str
key = file ++ (b'/' ∷ here)

abbrev pub manager : ServiceManager
manager = record { follow_services = file ∷ []; services = []; next = 0 }

abbrev pub up : ℕ → Str → Bool
up a h = false

abbrev notice : Response
notice = record {
  is_ok = true;
  events =
      put (record { key = key; value = here }) ∷ delete (record { key = key; value = here }) ∷ [];
}

pub manager-Follows : Follows file manager
unfolding contains Str-discrete ℕ_discrete obtain Dict.lookup
manager-Follows = record { followed = refl; valid = service_channel-IsValid 0 file }

callback-live_example :
    let m' = callback (some (on_service_online up)) (some on_service_offline) notice manager in
    Follows file m'
    × (hosts_of (obtain file m') ≡ live_after file notice.events (hosts_of (obtain file manager)))
unfolding contains obtain Dict.lookup
callback-live_example =
    callback-live up (λ a h. refl) file notice manager refl manager-Follows ((λ e. refl), tt)
