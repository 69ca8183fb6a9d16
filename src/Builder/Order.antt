-- ===== src/Builder/Order.antt =====
-- In which order the calls of `UserServerBuilder` succeed.
use cpp_microservice_im.Base.{◌≡◌, Str, Bool, true, List, arith}
use Prim.Native.Nat.{ℕ}
use cpp_microservice_im.Base.Outcome.{Outcome, done, crash}
use cpp_microservice_im.Builder.{
  Leases, UserServerBuilder, user_server_builder, UserServer, is_set, make_es_object,
  make_dms_object, make_mysql_object, make_redis_object, make_discovery_object,
  make_registry_object, make_rpc_object, build,
}
use cpp_microservice_im.Dms.{Config}
use cpp_microservice_im.Etcd.{Listing}

-- The calls on a builder, in any order; one that breaks off is a step too.
pub data Step (b : UserServerBuilder) : UserServerBuilder → Type 0 where
  es_object : (host_list : List Str) → Step b (make_es_object host_list b).1
  dms_object : (client : Outcome Config) → Step b (make_dms_object client b).1
  mysql_object :
      (user pswd host db cset : Str) (port conn_pool_count : ℕ)
      → Step b (make_mysql_object user pswd host db cset port conn_pool_count b).1
  redis_object :
      (host : Str) (port db conn_pool_count : ℕ)
      → Step b (make_redis_object host port db conn_pool_count b).1
  discovery_object :
      (failed : ℕ → Str → Bool) (ls : Str → Str → Listing) (reg_host base name : Str)
      → Step b (make_discovery_object failed ls reg_host base name b).1
  registry_object :
      (etcd : Leases) (reg_host service_name access_host : Str)
      → Step b (make_registry_object etcd reg_host service_name access_host b).1
  rpc_object :
      (added started : Bool) (port timeout num_threads : ℕ)
      → Step b (make_rpc_object added started port timeout num_threads b).1

pub data Reachable : UserServerBuilder → Type 0 where
  start : Reachable user_server_builder
  later : {b c : UserServerBuilder} → Reachable b → Step b c → Reachable c

-- Everything that the service object was made from is there.
abbrev pub Equipped : UserServerBuilder → Type 0
Equipped b =
    (is_set b.es_client ≡ true)
    × (is_set b.mysql_client ≡ true)
    × (is_set b.redis_client ≡ true)
    × (is_set b.mm_channels ≡ true)
    × (is_set b.dms ≡ true)

Step-Equipped :
    (b c : UserServerBuilder)
    → (is_set b.rpc_server ≡ true → Equipped b)
    → Step b c
    → is_set c.rpc_server ≡ true
    → Equipped c
unfolding make_es_object make_dms_object make_mysql_object make_redis_object make_discovery_object
    make_registry_object make_rpc_object
Step-Equipped b _ inv (es_object host_list) h = ground arith
Step-Equipped b _ inv (dms_object (done config)) h = ground arith
Step-Equipped b _ inv (dms_object (crash e)) h = inv h
Step-Equipped b _ inv (mysql_object user pswd host db cset port n) h = ground arith
Step-Equipped b _ inv (redis_object host port db n) h = ground arith
Step-Equipped b _ inv (discovery_object failed ls reg_host base name) h = ground arith
Step-Equipped b _ inv (registry_object etcd reg_host service_name access_host) h = ground arith
Step-Equipped b _ inv (rpc_object added started port timeout num_threads) h = ground arith

-- Whatever calls were made on a builder, in whatever order, an RPC server is there only where the
-- five clients of the service object are.
pub Reachable-Equipped :
    (b : UserServerBuilder) → Reachable b → is_set b.rpc_server ≡ true → Equipped b
Reachable-Equipped _ start h = ground arith
Reachable-Equipped _ (later {b} {c} r s) h = Step-Equipped b c (Reachable-Equipped b r) s h

-- A server that is built from a builder after any calls on it has all its parts.
pub build_complete :
    (b : UserServerBuilder) (server : UserServer)
    → Reachable b
    → (build b).0 ≡ done server
    → (is_set server.service_discover ≡ true)
      × (is_set server.registry_client ≡ true)
      × (is_set server.es_client ≡ true)
      × (is_set server.mysql_client ≡ true)
      × (is_set server.redis_client ≡ true)
      × (is_set server.rpc_server ≡ true)
unfolding build
build_complete b server r h = ground (arith, Reachable-Equipped b r)
