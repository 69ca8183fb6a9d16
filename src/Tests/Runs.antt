-- ===== src/Tests/Runs.antt =====
-- Runs of operations that no other example reaches.
use cpp_microservice_im.File.{FileSystem, get_single_file, read_file}
use cpp_microservice_im.Tests.Concrete.{disk, max_size}
use cpp_microservice_im.Base.{
  ℕ, suc, ◌≡◌, refl, Str, true, false, some, [], ◌∷◌, ◌++◌, contains, ◌==◌, utf8, Str-discrete,
  ℕ_discrete,
}
use cpp_microservice_im.Base.Dict
use cpp_microservice_im.Base.Outcome.{done, crash, exception}
use cpp_microservice_im.Builder.Flags.{default_flags, default_file_flags}
use cpp_microservice_im.Logger.{init_logger, stdout_color}
use cpp_microservice_im.Channel.{ServiceManager, declared, get_service_name}
use cpp_microservice_im.Es.{es_remove}
use cpp_microservice_im.EsUser.{create_index, search_users}
use cpp_microservice_im.Etcd.{registry, discovery}
use cpp_microservice_im.File.{file_service}
use cpp_microservice_im.Redis.{session_remove, session_uid, status_remove, command, get_value}
use cpp_microservice_im.Tests.Concrete.{disk, documents, engine, member, store}

abbrev key : Str
key = b'k' ∷ []

abbrev value : Str
value = b'v' ∷ []

session_kept : session_uid store key ((key, value) ∷ []) ≡ (done (some value), (key, value) ∷ [])
unfolding session_uid get_value Dict.lookup Str-discrete ℕ_discrete
session_kept = refl

session_removed : session_remove store key ((key, value) ∷ []) ≡ (done tt, [])
unfolding session_remove command Dict.erase Str-discrete ℕ_discrete
session_removed = refl

status_removed : status_remove store key ((key, []) ∷ []) ≡ (done tt, [])
unfolding status_remove command Dict.erase Str-discrete ℕ_discrete
status_removed = refl

document_removed : es_remove documents engine key key key 5 ≡ (true, 5)
unfolding es_remove
document_removed = refl

index_created : create_index documents engine 0 ≡ (true, 1)
unfolding create_index
index_created = refl

-- An answer without hits throws.
nothing_found : search_users documents engine key [] 0 ≡ (crash exception, 0)
unfolding search_users member
nothing_found = refl

abbrev manager : ServiceManager
manager = record { follow_services = []; services = []; next = 0 }

declared_once : declared key (declared key manager) ≡ record manager { follow_services = key ∷ [] }
unfolding declared contains Str-discrete ℕ_discrete
declared_once = refl

registered : registry {C = ℕ} (λ k v lease c. (suc c, true)) 7 key value 0 ≡ (1, true)
unfolding registry
registered = refl

-- The entries are handed on where the listing failed, too.
listed :
    discovery {S = ℕ}
      (some (λ k v n. suc n))
      (record { is_ok = false; entries = record { key = key; value = value } ∷ [] })
      0
    ≡ 1
unfolding discovery
listed = refl

slash_added : file_service disk key [] ≡ (some (b'k' ∷ b'/' ∷ []), [])
unfolding file_service
slash_added = refl

-- The service of a file server that registers with the default flags is not the one that the user
-- server follows by default.
file_service_missed :
    get_service_name (default_file_flags.base_service ++ default_file_flags.instance_name)
    ≡ utf8 "/service/file_service"
unfolding get_service_name utf8
file_service_missed = refl

not_followed : (utf8 "/service/file_service" == default_flags.file_service) ≡ false
unfolding utf8 Str-discrete ℕ_discrete
not_followed = refl

-- Without the release mode, the level and the file are not used.
logged :
    init_logger (λ file. false) false key 5
    ≡ done (record {
      name = utf8 "default-logger";
      sink = stdout_color;
      level = 0;
      flush_level = 0;
      pattern = utf8 "[%n][%H%M%S][%t][%-8l]%v";
    })
unfolding init_logger
logged = refl

-- A file that the C++ library cannot size, as a directory, ends the process.
abbrev directories : FileSystem
directories = record disk { size = λ stream. suc max_size }

downloaded :
    get_single_file directories [] [] key
      (record { files = (key, []) ∷ []; ids = record { drawn = 0; idx = 0 } })
    ≡ crash exception
unfolding get_single_file read_file Dict.lookup Str-discrete ℕ_discrete
downloaded = refl
