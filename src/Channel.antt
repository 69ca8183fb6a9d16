-- ===== src/Channel.antt =====
-- code/server/common/channel.hpp: `ServiceChannel`, the channels to the nodes of one service, and
-- `ServiceManager`, the services that a process follows.
-- A `shared_ptr<brpc::Channel>` is its address with the host that it was initialised for. An
-- operation runs as one step here; Etcd/Threads has the two that the manager's mutex and then the
-- service's make of it. What `brpc::Channel::Init` returns is an argument, true where it is -1.
pub mod RoundRobin
pub mod Bounds
pub mod Rotation
pub mod Erase
pub mod Removal
pub mod Manager
use cpp_microservice_im.Base.{
  ℕ, suc, ◌+◌, ◌-◌, ◌%◌, ◌^◌, Str, Bool, true, false, Option, none, some, List, [], ◌∷◌, ◌++◌,
  length, get_elem?, take, ltb, eqb, if◌then◌else◌, ◌==◌, contains,
}
use cpp_microservice_im.Base.Dict
use cpp_microservice_im.Base.Dict.{Dict}

pub record Channel : Type 0 where
  pub address : ℕ
  pub host : Str

-- `index` is the bit pattern of the `int32_t`.
pub record ServiceChannel : Type 0 where
  pub index : ℕ
  pub servicename : Str
  pub channels : List Channel
  pub hosts : Dict Channel

-- The constructor.
abbrev pub service_channel : Str → ServiceChannel
service_channel name = record { index = 0; servicename = name; channels = []; hosts = [] }

-- `address` is where `make_shared` put the new channel.
unfoldable pub append : Bool → ℕ → Str → ServiceChannel → ServiceChannel
append failed address host sc = if failed then sc else record sc {
  channels = sc.channels ++ (channel ∷ []);
  hosts = Dict.insert host channel sc.hosts;
}
  where
    channel : Channel
    channel = record { address = address; host = host }

-- The loop over `_channels`: the first entry that is the pointer given is erased.
pub erase_channel : ℕ → List Channel → List Channel
erase_channel address [] = []
erase_channel address (c ∷ cs) = if eqb c.address address then cs else c ∷ erase_channel address cs

unfoldable pub remove : Str → ServiceChannel → ServiceChannel
remove host sc = elim (Dict.lookup host sc.hosts) [
  | none ↦ sc
  | some c ↦ record sc {
    channels = erase_channel c.address sc.channels;
    hosts = Dict.erase host sc.hosts;
  }
]

-- An `int32_t` as the `size_t` that `%`, or `[]` of a vector, makes of it.
abbrev pub to_size : ℕ → ℕ
to_size w = if ltb w (2 ^ 31) then w else w + 2 ^ 64 - 2 ^ 32

-- `_index++` wraps here; in C++ it is undefined at the largest `int32_t`. A null channel, and a read
-- outside the vector, is `none`.
unfoldable pub choose : ServiceChannel → Option Channel × ServiceChannel
choose sc =
    if eqb (length sc.channels) 0
    then (none, sc)
    else (get_elem? sc.channels (to_size idx), record sc { index = (sc.index + 1) % 2 ^ 32 })
  where
    idx : ℕ
    idx = to_size sc.index % length sc.channels % 2 ^ 32

-- `next` is the address of the next object that is allocated.
pub record ServiceManager : Type 0 where
  pub follow_services : List Str
  pub services : Dict ServiceChannel
  pub next : ℕ

-- `std::string::find_last_of` for one character; `npos` is `none`.
pub find_last_of : ℕ → Str → Option ℕ
find_last_of c [] = none
find_last_of c (x ∷ xs) = elim (find_last_of c xs) [
  | some i ↦ some (suc i)
  | none ↦ if eqb x c then some 0 else none
]

unfoldable pub get_service_name : Str → Str
unfolding find_last_of
get_service_name service_instance = elim (find_last_of b'/' service_instance) [
  | none ↦ service_instance
  | some pos ↦ take pos service_instance
]

unfoldable pub declared : Str → ServiceManager → ServiceManager
declared service_name m =
    if contains service_name m.follow_services
    then m
    else record m { follow_services = service_name ∷ m.follow_services }

unfoldable pub choose_service : Str → ServiceManager → Option Channel × ServiceManager
choose_service service_name m = elim (Dict.lookup service_name m.services) [
  | none ↦ (none, m)
  | some service ↦
      let (channel, service') = choose service in
      (channel, record m { services = Dict.assign service_name service' m.services })
]

-- The management object of a followed service: the one that is there, or a new one.
unfoldable pub obtain : Str → ServiceManager → ServiceChannel
obtain name m = elim (Dict.lookup name m.services) [
  | none ↦ service_channel name
  | some service ↦ service
]

-- `failed address host` says whether `Init` returns -1 on the channel made at that address. The
-- pointer to the management object is never null, so the check of it has no counterpart.
unfoldable pub on_service_online : (ℕ → Str → Bool) → Str → Str → ServiceManager → ServiceManager
on_service_online failed service_instance host m =
    if contains name m.follow_services
    then record m {
      services =
          Dict.assign name (append (failed m.next host) m.next host (obtain name m)) m.services;
      next = m.next + 1;
    }
    else m
  where
    name : Str
    name = get_service_name service_instance

unfoldable pub on_service_offline : Str → Str → ServiceManager → ServiceManager
on_service_offline service_instance host m =
    if contains name m.follow_services
    then elim (Dict.lookup name m.services) [
      | none ↦ m
      | some service ↦ record m { services = Dict.assign name (remove host service) m.services }
    ]
    else m
  where
    name : Str
    name = get_service_name service_instance
