-- ===== src/Builder/Small.antt =====
-- `SpeechServerBuilder` of code/server/speech/source/speech_server.hpp, `FileServerBuilder` of
-- code/server/file/source/file_server.hpp, and the calls of their `main`, up to `start`. In both the
-- node is registered before its server runs.
use cpp_microservice_im.Base.{
  ℕ, ◌%◌, ◌^◌, ◌≡◌, Str, Bool, ◌&&◌, Option, none, some, ◌++◌, if◌then◌else◌,
}
use cpp_microservice_im.Base.Outcome.{done, crash, aborted, exception, M, pure, ◌>>◌}
use cpp_microservice_im.Base.{[], ◌∷◌, arith}
use cpp_microservice_im.Logger.{init_logger, with_logger}
use cpp_microservice_im.Builder.{
  Leases, registered, node_of, logs, first_failure, expect, is_set, Registered, RpcServer,
}
use cpp_microservice_im.Builder.Flags.{SpeechFlags, FileFlags}

-- What `ASRClient` is made with.
pub record AsrClient : Type 0 where
  pub app_id : Str
  pub api_key : Str
  pub secret_key : Str

pub record SpeechServerBuilder : Type 0 where
  pub asr_client : Option AsrClient
  pub reg_client : Option Registered
  pub rpc_server : Option RpcServer

abbrev pub speech_server_builder : SpeechServerBuilder
speech_server_builder = record { asr_client = none; reg_client = none; rpc_server = none }

abbrev running_with : ℕ → ℕ → ℕ → Option RpcServer
running_with port timeout num_threads = some (record {
  running = some (record { port = port; idle_timeout_sec = timeout; num_threads = num_threads });
})

pub make_asr_object : Str → Str → Str → M SpeechServerBuilder (Unit {0})
make_asr_object app_id api_key secret_key b = (
  done tt,
  record b {
    asr_client = some (record { app_id = app_id; api_key = api_key; secret_key = secret_key });
  },
)

pub make_speech_reg_object : Leases → Str → Str → Str → M SpeechServerBuilder (Unit {0})
make_speech_reg_object etcd reg_host service_name access_host b =
    elim (registered etcd reg_host service_name access_host) [
      | crash e ↦ (crash e, b)
      | done client ↦ (done tt, record b { reg_client = some client })
    ]

pub make_speech_rpc_object : Bool → Bool → ℕ → ℕ → ℕ → M SpeechServerBuilder (Unit {0})
make_speech_rpc_object added started port timeout num_threads b =
    (expect (is_set b.asr_client)
        >> (λ c. (done tt, record c { rpc_server = some (record { running = none }) }))
        >> expect added
        >> expect started
        >> (λ c. (done tt, record c { rpc_server = running_with port timeout num_threads })))
      b

-- The server has the three pointers of the builder.
pub build_speech : M SpeechServerBuilder SpeechServerBuilder
build_speech b =
    (expect (is_set b.asr_client)
        >> expect (is_set b.reg_client)
        >> expect (is_set b.rpc_server)
        >> pure b)
      b

pub speech_main :
    (Str → Bool) → Leases → SpeechFlags → Bool → Bool → M SpeechServerBuilder SpeechServerBuilder
unfolding make_asr_object make_speech_reg_object make_speech_rpc_object build_speech
speech_main opens etcd flags added started =
    with_logger (init_logger opens flags.run_mode flags.log_file flags.log_level)
    >> make_asr_object flags.app_id flags.api_key flags.secret_key
    >> make_speech_reg_object etcd flags.registry_host (flags.base_service ++ flags.instance_name)
        flags.access_host
    >> make_speech_rpc_object added started (flags.listen_port % 2 ^ 16) flags.rpc_timeout
        (flags.rpc_threads % 2 ^ 8)
    >> build_speech

-- `storage_path` is what the service object of the server was made with.
pub record FileServerBuilder : Type 0 where
  pub reg_client : Option Registered
  pub rpc_server : Option RpcServer
  pub storage_path : Option Str

abbrev pub file_server_builder : FileServerBuilder
file_server_builder = record { reg_client = none; rpc_server = none; storage_path = none }

pub make_file_reg_object : Leases → Str → Str → Str → M FileServerBuilder (Unit {0})
make_file_reg_object etcd reg_host service_name access_host b =
    elim (registered etcd reg_host service_name access_host) [
      | crash e ↦ (crash e, b)
      | done client ↦ (done tt, record b { reg_client = some client })
    ]

pub make_file_rpc_object : Bool → Bool → ℕ → ℕ → ℕ → Str → M FileServerBuilder (Unit {0})
make_file_rpc_object added started port timeout num_thread path b =
    ((λ c. (
      done tt,
      record c { rpc_server = some (record { running = none }); storage_path = some path },
    ))
        >> expect added
        >> expect started
        >> (λ c. (done tt, record c { rpc_server = running_with port timeout num_thread })))
      b

pub build_file : M FileServerBuilder FileServerBuilder
build_file b = (expect (is_set b.reg_client) >> expect (is_set b.rpc_server) >> pure b) b

pub file_main :
    (Str → Bool) → Leases → FileFlags → Bool → Bool → M FileServerBuilder FileServerBuilder
unfolding make_file_reg_object make_file_rpc_object build_file
file_main opens etcd flags added started =
    with_logger (init_logger opens flags.run_mode flags.log_file flags.log_level)
    >> make_file_reg_object etcd flags.registry_host (flags.base_service ++ flags.instance_name)
        flags.access_host
    >> make_file_rpc_object added started (flags.listen_port % 2 ^ 16) flags.rpc_timeout
        (flags.rpc_threads % 2 ^ 8) flags.storage_path
    >> build_file

-- The speech server of the flags.
abbrev pub speech_server_for : Registered → SpeechFlags → SpeechServerBuilder
speech_server_for node flags = record {
  asr_client =
      some
        (record { app_id = flags.app_id; api_key = flags.api_key; secret_key = flags.secret_key });
  reg_client = some node;
  rpc_server =
      running_with (flags.listen_port % 2 ^ 16) flags.rpc_timeout (flags.rpc_threads % 2 ^ 8);
}

abbrev pub file_server_for : Registered → FileFlags → FileServerBuilder
file_server_for node flags = record {
  reg_client = some node;
  rpc_server =
      running_with (flags.listen_port % 2 ^ 16) flags.rpc_timeout (flags.rpc_threads % 2 ^ 8);
  storage_path = some flags.storage_path;
}

pub small_mains_lem :
    (opens : Str → Bool) (etcd : Leases) (flags : SpeechFlags) (flags' : FileFlags)
    (added started : Bool)
    → let (o, b) = speech_main opens etcd flags added started speech_server_builder in
      let (o', b') = file_main opens etcd flags' added started file_server_builder in
      let node =
        node_of etcd flags.registry_host flags.base_service flags.instance_name flags.access_host in
      let node' =
        node_of etcd flags'.registry_host flags'.base_service flags'.instance_name
          flags'.access_host in
      let logged = logs opens flags.run_mode flags.log_file in
      let logged' = logs opens flags'.run_mode flags'.log_file in
      let leased = etcd.keeps_alive flags.registry_host in
      let leased' = etcd.keeps_alive flags'.registry_host in
      (o
        ≡ first_failure
            ((logged, exception) ∷ (leased, exception) ∷ (added, aborted) ∷ (started, aborted) ∷ [])
            (speech_server_for node flags))
      × (o'
          ≡ first_failure
              ((logged', exception)
                ∷ (leased', exception)
                ∷ (added, aborted)
                ∷ (started, aborted)
                ∷ [])
              (file_server_for node' flags'))
      × (b.reg_client ≡ (if logged && leased then some node else none))
      × (b'.reg_client ≡ (if logged' && leased' then some node' else none))
unfolding speech_main file_main make_asr_object make_speech_reg_object make_speech_rpc_object
    build_speech make_file_reg_object make_file_rpc_object build_file init_logger
small_mains_lem opens etcd flags flags' added started =
    (ground arith, ground arith, ground arith, ground arith)
