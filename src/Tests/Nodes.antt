-- ===== src/Tests/Nodes.antt =====
-- The file server and the user server with the default flags.
use cpp_microservice_im.Base.{ℕ, ◌≡◌, Str, Bool, true, false, some, [], ◌∷◌, ◌++◌}
use cpp_microservice_im.Builder.{Leases, Registered}
use cpp_microservice_im.Builder.Flags.{default_flags, default_file_flags}
use cpp_microservice_im.Builder.Small.{file_main, file_server_builder, small_mains_lem}
use cpp_microservice_im.Builder.Flags.{default_speech_flags}
use cpp_microservice_im.Channel.{Channel, ServiceManager, declared, on_service_online}
use cpp_microservice_im.Etcd.{Listing, discovery}

abbrev up : ℕ → Str → Bool
up a h = false

abbrev shut : Str → Bool
shut file = false

-- An etcd that is reached.
abbrev reached : Leases
reached = record { keeps_alive = λ host. true; puts_key = λ host key value. true }

abbrev node : Registered
node = record {
  host = default_file_flags.registry_host;
  key = default_file_flags.base_service ++ default_file_flags.instance_name;
  value = default_file_flags.access_host;
  announced = true;
}

abbrev one_node : Str → Str → Listing
one_node host base = record {
  is_ok = true;
  entries = record { key = node.key; value = node.value } ∷ [];
}

abbrev manager : ServiceManager
manager =
    discovery (some (on_service_online up))
      (one_node default_flags.registry_host default_flags.base_service)
      (declared default_flags.file_service
        (record { follow_services = []; services = []; next = 0 }))

announced :
    (file_main shut reached default_file_flags true true file_server_builder).1.reg_client
    ≡ some node
announced = (small_mains_lem shut reached default_speech_flags default_file_flags true true).3
