-- ===== src/Builder/Main.antt =====
-- `main` of code/server/user/source/user_server.cc, and what it builds.
use cpp_microservice_im.Base.{
  ℕ, ◌%◌, ◌^◌, ◌≡◌, refl, ap, eqb, ◌∙◌, Str, Bool, true, false, not, ◌&&◌, Option, none, some, [],
  ◌∷◌, ◌++◌, if◌then◌else◌,
}
use cpp_microservice_im.Base.Outcome.{Outcome, done, crash, aborted, exception, M, ◌>>◌}
use cpp_microservice_im.Base.{utf8, Bool-cases, ◌⊎◌, inl, inr}
use cpp_microservice_im.Logger.{Logger, basic_file, init_logger, with_logger}
use cpp_microservice_im.Builder.{
  Leases, node_of, logs, first_failure, is_set, UserServerBuilder, user_server_builder, UserServer,
  make_es_object, make_dms_object, make_mysql_object, make_redis_object, make_discovery_object,
  make_registry_object, make_rpc_object, build,
}
use cpp_microservice_im.Builder.Flags.{Flags}
use cpp_microservice_im.Dms.{Config, dms_client}
use cpp_microservice_im.Etcd.{Listing}
use cpp_microservice_im.Mysql.{odb_create}
use cpp_microservice_im.Redis.{redis_create}

-- The calls of `main` on the builder. The port and the number of threads become a `uint16_t` and a
-- `uint8_t`, and the flag for redis an `int`.
user_objects :
    Outcome Config
    → (ℕ → Str → Bool)
    → (Str → Str → Listing)
    → Leases
    → Flags
    → Bool
    → Bool
    → M UserServerBuilder UserServer
user_objects client failed ls etcd flags added started =
    make_es_object (flags.es_host ∷ [])
    >> make_dms_object client
    >> make_mysql_object flags.mysql_user flags.mysql_pwd flags.mysql_host flags.mysql_db
        flags.mysql_cset flags.mysql_port flags.mysql_pool_count
    >> make_redis_object flags.redis_host flags.redis_port flags.redis_db
        (if flags.redis_keep_alive then 1 else 0)
    >> make_discovery_object failed ls flags.registry_host flags.base_service flags.file_service
    >> make_rpc_object added started (flags.listen_port % 2 ^ 16) flags.rpc_timeout
        (flags.rpc_threads % 2 ^ 8)
    >> make_registry_object etcd flags.registry_host (flags.base_service ++ flags.instance_name)
        flags.access_host
    >> build

-- `main`, up to `start`.
pub user_main :
    (Str → Bool)
    → Outcome Config
    → (ℕ → Str → Bool)
    → (Str → Str → Listing)
    → Leases
    → Flags
    → Bool
    → Bool
    → M UserServerBuilder UserServer
user_main opens client failed ls etcd flags added started =
    with_logger (init_logger opens flags.run_mode flags.log_file flags.log_level)
    >> user_objects client failed ls etcd flags added started

-- The server that the flags ask for.
abbrev pub server_for : Leases → Flags → UserServer
server_for etcd flags = record {
  service_discover = some (record { host = flags.registry_host; basedir = flags.base_service });
  registry_client =
      some
        (node_of etcd flags.registry_host flags.base_service flags.instance_name flags.access_host);
  es_client = some (flags.es_host ∷ []);
  mysql_client = some (record {
    user = flags.mysql_user;
    passwd = flags.mysql_pwd;
    db = flags.mysql_db;
    host = flags.mysql_host;
    port = flags.mysql_port;
    socket = [];
    charset = flags.mysql_cset;
    client_flags = 0;
    max_connections = flags.mysql_pool_count;
    min_connections = 0;
  });
  redis_client = some (record {
    host = flags.redis_host;
    port = flags.redis_port;
    db = flags.redis_db;
    keep_alive = flags.redis_keep_alive;
  });
  rpc_server = some (record {
    running = some (record {
      port = flags.listen_port % 2 ^ 16;
      idle_timeout_sec = flags.rpc_timeout;
      num_threads = flags.rpc_threads % 2 ^ 8;
    });
  });
}

kept_alive : (b : Bool) → not (eqb (if b then 1 else 0) 0) ≡ b
kept_alive true = refl
kept_alive false = refl

-- Whether a variable of the environment is set to a text that is not empty.
abbrev pub is_given : Option Str → Bool
is_given none = false
is_given (some []) = false
is_given (some (c ∷ s)) = true

-- The constructor of the SMS client throws without one of the keys.
dms_client-cases :
    (ak sk : Option Str)
    → ((is_given ak && is_given sk ≡ false) × (dms_client ak sk ≡ crash exception))
      ⊎ (is_given ak && is_given sk ≡ true) × (config : Config) × (dms_client ak sk ≡ done config)
unfolding dms_client
dms_client-cases none sk = inl (refl, refl)
dms_client-cases (some []) sk = inl (refl, refl)
dms_client-cases (some (a ∷ ak)) none = inl (refl, refl)
dms_client-cases (some (a ∷ ak)) (some []) = inl (refl, refl)
dms_client-cases (some (a ∷ ak)) (some (b ∷ sk)) = inr (refl, _, refl)

objects_lem :
    (client : Outcome Config) (failed : ℕ → Str → Bool) (ls : Str → Str → Listing) (etcd : Leases)
    (flags : Flags) (added started : Bool)
    → let (o, b) = user_objects client failed ls etcd flags added started user_server_builder in
      let leased = etcd.keeps_alive flags.registry_host in
      (o ≡ (elim client [
        | crash e ↦ crash e
        | done config ↦
            first_failure
              ((added, aborted) ∷ (started, aborted) ∷ (leased, exception) ∷ [])
              (server_for etcd flags)
      ]))
      × (is_set b.registry_client
          ≡ (elim client [ crash e ↦ false | done config ↦ added && started && leased ]))
unfolding user_objects make_es_object make_dms_object make_mysql_object make_redis_object
    make_discovery_object make_rpc_object make_registry_object build redis_create odb_create
objects_lem (crash e) failed ls etcd flags added started = (refl, refl)
objects_lem (done config) failed ls etcd flags false started = (refl, refl)
objects_lem (done config) failed ls etcd flags true false = (refl, refl)
objects_lem (done config) failed ls etcd flags true true =
    elim (Bool-cases (etcd.keeps_alive flags.registry_host)) [
      | inl e ↦
          rw (e, user_objects, make_registry_object)
            (
              ap
                  (λ b. done (record (server_for etcd flags) {
                    redis_client = some (record {
                      host = flags.redis_host;
                      port = flags.redis_port;
                      db = flags.redis_db;
                      keep_alive = b;
                    });
                  }))
                  (kept_alive flags.redis_keep_alive),
              refl,
            )
      | inr e ↦ rw (e, user_objects, make_registry_object) (refl, refl)
    ]

-- Without its file the logger throws.
init_logger-cases :
    (opens : Str → Bool) (mode : Bool) (file : Str) (level : ℕ)
    → ((logs opens mode file ≡ false) × (init_logger opens mode file level ≡ crash exception))
      ⊎ (logs opens mode file ≡ true)
        × (logger : Logger) × (init_logger opens mode file level ≡ done logger)
unfolding init_logger
init_logger-cases opens false file level = inr (refl, _, refl)
init_logger-cases opens true file level = elim (Bool-cases (opens file)) [
  | inl e ↦ inr (
    e,
    record {
      name = utf8 "default-logger";
      sink = basic_file file;
      level = level;
      flush_level = level;
      pattern = utf8 "[%n][%H%M%S][%t][%-8l]%v";
    },
    rw e refl,
  )
  | inr e ↦ inl (e, rw e refl)
]

-- `main` builds the server that the flags ask for, with the port and the number of threads cut to
-- their low 16 and 8 bits, exactly where the log can be opened, both keys of the SMS platform are
-- given, the service could be added, the server started, and the lease is kept alive, as far as etcd
-- answers the listing. The first of these that fails decides: no log, no key and no lease throw, and
-- the other two abort. Etcd is asked to announce the node only where all of them hold, when the
-- server runs already.
pub user_main_lem :
    (opens : Str → Bool) (ak sk : Option Str) (failed : ℕ → Str → Bool) (ls : Str → Str → Listing)
    (etcd : Leases) (flags : Flags) (added started : Bool)
    → let (o, b) =
        user_main opens (dms_client ak sk) failed ls etcd flags added started user_server_builder in
      let logged = logs opens flags.run_mode flags.log_file in
      let given = is_given ak && is_given sk in
      let leased = etcd.keeps_alive flags.registry_host in
      (o
        ≡ first_failure
            ((logged, exception)
              ∷ (given, exception)
              ∷ (added, aborted)
              ∷ (started, aborted)
              ∷ (leased, exception)
              ∷ [])
            (server_for etcd flags))
      × (is_set b.registry_client ≡ logged && given && added && started && leased)
unfolding user_main
user_main_lem opens ak sk failed ls etcd flags added started =
    let (o, b) = objects_lem (dms_client ak sk) failed ls etcd flags added started in
    elim (init_logger-cases opens flags.run_mode flags.log_file flags.log_level) [
      | inl (shut, e) ↦ rw (e, shut, user_main) (refl, refl)
      | inr (open_log, logger, e) ↦
          rw (e, open_log, user_main)
            (elim (dms_client-cases ak sk) [
              | inl (missing, f) ↦ (o ∙ rw (missing, f) refl, b ∙ rw (missing, f) refl)
              | inr (both, config, f) ↦ (o ∙ rw (both, f) refl, b ∙ rw (both, f) refl)
            ])
    ]
