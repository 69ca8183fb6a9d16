-- ===== src/Builder.antt =====
-- `UserServerBuilder` of code/server/user/source/user_server.hpp.
-- An object of a library is what it is made with; an `int32_t` is a 32-bit pattern. `added` and
-- `started` say that `AddService` and `Start` did not return -1. `abort()` is the fault `aborted`.
pub mod Flags
pub mod Main
pub mod Order
pub mod Small
pub mod Serving
pub mod Node
use cpp_microservice_im.Base.{
  Str, Bool, true, false, not, Option, none, some, List, [], ◌∷◌, ◌++◌, eqb, if◌then◌else◌,
}
use cpp_microservice_im.Base.Outcome.{
  Outcome, done, crash, aborted, exception, Fault, M, pure, fail, ◌>>=◌, ◌>>◌,
}
use cpp_microservice_im.Channel.{ServiceManager, declared, on_service_online, on_service_offline}
use cpp_microservice_im.Dms.{Config}
use cpp_microservice_im.Etcd.{Listing, discovery}
use cpp_microservice_im.Mysql.{DatabaseOptions, odb_create}
use cpp_microservice_im.Redis.{ConnectionOptions, redis_create}
use Prim.Native.Nat.{ℕ}

-- What the objects of the libraries are made with: the directory that is watched, the key that is
-- registered, with whether etcd answered so, and the options that the RPC server was started with, once it was.
pub record Watched : Type 0 where
  pub host : Str
  pub basedir : Str

pub record Registered : Type 0 where
  pub host : Str
  pub key : Str
  pub value : Str
  pub announced : Bool

-- The client of etcd for `Registry`: `keeps_alive` says whether a client of this host gets a lease that is
-- kept alive, where otherwise the constructor throws, and `puts_key` whether etcd there answers the put of
-- a key and a value with `is_ok`.
pub record Leases : Type 0 where
  pub keeps_alive : Str → Bool
  pub puts_key : Str → Str → Str → Bool

-- The constructor of `Registry` and the call of `registry`, whose result the builders do not read.
abbrev pub registered : Leases → Str → Str → Str → Outcome Registered
registered etcd reg_host service_name access_host =
    if etcd.keeps_alive reg_host
    then done (record {
      host = reg_host;
      key = service_name;
      value = access_host;
      announced = etcd.puts_key reg_host service_name access_host;
    })
    else crash exception

pub record ServerOptions : Type 0 where
  pub port : ℕ
  pub idle_timeout_sec : ℕ
  pub num_threads : ℕ

pub record RpcServer : Type 0 where
  pub running : Option ServerOptions

pub record UserServerBuilder : Type 0 where
  pub registry_client : Option Registered
  pub es_client : Option (List Str)
  pub mysql_client : Option DatabaseOptions
  pub redis_client : Option ConnectionOptions
  pub file_service_name : Str
  pub mm_channels : Option ServiceManager
  pub service_discover : Option Watched
  pub dms : Option Config
  pub rpc_server : Option RpcServer

abbrev pub user_server_builder : UserServerBuilder
user_server_builder = record {
  registry_client = none;
  es_client = none;
  mysql_client = none;
  redis_client = none;
  file_service_name = [];
  mm_channels = none;
  service_discover = none;
  dms = none;
  rpc_server = none;
}

-- `if(!ok) abort();`
abbrev pub expect : {S : Type 0} → Bool → M S (Unit {0})
expect true = pure tt
expect false = fail aborted

abbrev pub is_set : {A : Type 0} → Option A → Bool
is_set none = false
is_set (some a) = true

abbrev B : Type 0
B = UserServerBuilder

-- `ESClientFactory::create` passes the hosts on.
unfoldable pub make_es_object : List Str → M B (Unit {0})
make_es_object host_list b = (done tt, record b { es_client = some host_list })

-- Over what the constructor of the client does.
unfoldable pub make_dms_object : Outcome Config → M B (Unit {0})
make_dms_object (crash e) b = (crash e, b)
make_dms_object (done config) b = (done tt, record b { dms = some config })

unfoldable pub make_mysql_object : Str → Str → Str → Str → Str → ℕ → ℕ → M B (Unit {0})
unfolding odb_create
make_mysql_object user pswd host db cset port conn_pool_count b = (
  done tt,
  record b { mysql_client = some (odb_create user pswd host db cset port conn_pool_count) },
)

-- The last argument, an `int`, becomes the option to keep the connection alive.
unfoldable pub make_redis_object : Str → ℕ → ℕ → ℕ → M B (Unit {0})
unfolding redis_create
make_redis_object host port db conn_pool_count b = (
  done tt,
  record b { redis_client = some (redis_create host port db (not (eqb conn_pool_count 0))) },
)

-- `ls` is what etcd at a host lists under a name; the manager is new, and gets the nodes listed.
unfoldable pub make_discovery_object :
    (ℕ → Str → Bool) → (Str → Str → Listing) → Str → Str → Str → M B (Unit {0})
make_discovery_object failed ls reg_host base_service_name name b = (
  done tt,
  record b {
    file_service_name = name;
    mm_channels = some (
        discovery (some (on_service_online failed)) (ls reg_host base_service_name)
          (declared name (record { follow_services = []; services = []; next = 0 })));
    service_discover = some (record { host = reg_host; basedir = base_service_name });
  },
)

unfoldable pub make_registry_object : Leases → Str → Str → Str → M B (Unit {0})
make_registry_object etcd reg_host service_name access_host b =
    elim (registered etcd reg_host service_name access_host) [
      | crash e ↦ (crash e, b)
      | done client ↦ (done tt, record b { registry_client = some client })
    ]

unfoldable pub make_rpc_object : Bool → Bool → ℕ → ℕ → ℕ → M B (Unit {0})
make_rpc_object added started port timeout num_threads b =
    (expect (is_set b.es_client)
        >> expect (is_set b.mysql_client)
        >> expect (is_set b.redis_client)
        >> expect (is_set b.mm_channels)
        >> expect (is_set b.dms)
        >> (λ c. (done tt, record c { rpc_server = some (record { running = none }) }))
        >> expect added
        >> expect started
        >> (λ c. (
          done tt,
          record c {
            rpc_server = some (record {
              running =
                  some
                    (record { port = port; idle_timeout_sec = timeout; num_threads = num_threads });
            });
          },
        )))
      b

-- The node of a service by its flags.
abbrev pub node_of : Leases → Str → Str → Str → Str → Registered
node_of etcd reg_host base_service instance_name access_host = record {
  host = reg_host;
  key = base_service ++ instance_name;
  value = access_host;
  announced = etcd.puts_key reg_host (base_service ++ instance_name) access_host;
}

-- Whether the log that the flags ask for can be opened: standard output can.
abbrev pub logs : (Str → Bool) → Bool → Str → Bool
logs opens mode file = if mode then opens file else true

-- The first condition that fails decides how a process ends.
abbrev pub first_failure : {A : Type 0} → List (Bool × Fault) → A → Outcome A
first_failure [] a = done a
first_failure ((ok, e) ∷ cs) a = if ok then first_failure cs a else crash e

pub record UserServer : Type 0 where
  pub service_discover : Option Watched
  pub registry_client : Option Registered
  pub es_client : Option (List Str)
  pub mysql_client : Option DatabaseOptions
  pub redis_client : Option ConnectionOptions
  pub rpc_server : Option RpcServer

unfoldable pub build : M B UserServer
build b =
    (expect (is_set b.service_discover)
        >> expect (is_set b.registry_client)
        >> expect (is_set b.rpc_server)
        >> pure (record {
          service_discover = b.service_discover;
          registry_client = b.registry_client;
          es_client = b.es_client;
          mysql_client = b.mysql_client;
          redis_client = b.redis_client;
          rpc_server = b.rpc_server;
        }))
      b
