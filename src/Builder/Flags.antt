-- ===== src/Builder/Flags.antt =====
-- The flags of code/server/user/source/user_server.cc, code/server/file/source/file_server.cc and
-- code/server/speech/source/speech_server.cc. An `int32_t` is its 32-bit pattern.
use cpp_microservice_im.Base.{ℕ, Str, Bool, true, false, [], utf8}

pub record Flags : Type 0 where
  pub run_mode : Bool
  pub log_file : Str
  pub log_level : ℕ
  pub registry_host : Str
  pub instance_name : Str
  pub access_host : Str
  pub listen_port : ℕ
  pub rpc_timeout : ℕ
  pub rpc_threads : ℕ
  pub base_service : Str
  pub file_service : Str
  pub es_host : Str
  pub mysql_user : Str
  pub mysql_pwd : Str
  pub mysql_host : Str
  pub mysql_db : Str
  pub mysql_cset : Str
  pub mysql_port : ℕ
  pub mysql_pool_count : ℕ
  pub redis_host : Str
  pub redis_port : ℕ
  pub redis_db : ℕ
  pub redis_keep_alive : Bool

abbrev pub default_flags : Flags
default_flags = record {
  run_mode = false;
  log_file = [];
  log_level = 0;
  registry_host = utf8 "http://127.0.0.1:2379";
  instance_name = utf8 "/user_service/instance";
  access_host = utf8 "127.0.0.1:10003";
  listen_port = 10003;
  rpc_timeout = 4294967295;
  rpc_threads = 1;
  base_service = utf8 "/service";
  file_service = utf8 "/service/file";
  es_host = utf8 "http://127.0.0.1:9200/";
  mysql_user = utf8 "imuser";
  mysql_pwd = utf8 "imuser_666";
  mysql_host = utf8 "127.0.0.1";
  mysql_db = utf8 "my_im";
  mysql_cset = utf8 "utf8";
  mysql_port = 0;
  mysql_pool_count = 4;
  redis_host = utf8 "127.0.0.1";
  redis_port = 6379;
  redis_db = 0;
  redis_keep_alive = true;
}

-- The file server.
pub record FileFlags : Type 0 where
  pub run_mode : Bool
  pub log_file : Str
  pub log_level : ℕ
  pub registry_host : Str
  pub base_service : Str
  pub instance_name : Str
  pub access_host : Str
  pub storage_path : Str
  pub listen_port : ℕ
  pub rpc_timeout : ℕ
  pub rpc_threads : ℕ

abbrev pub default_file_flags : FileFlags
default_file_flags = record {
  run_mode = false;
  log_file = [];
  log_level = 0;
  registry_host = utf8 "http://127.0.0.1:2379";
  base_service = utf8 "/service";
  instance_name = utf8 "/file_service/instance";
  access_host = utf8 "127.0.0.1:10002";
  storage_path = utf8 "./data/";
  listen_port = 10002;
  rpc_timeout = 4294967295;
  rpc_threads = 1;
}

-- The speech server.
pub record SpeechFlags : Type 0 where
  pub run_mode : Bool
  pub log_file : Str
  pub log_level : ℕ
  pub registry_host : Str
  pub base_service : Str
  pub instance_name : Str
  pub access_host : Str
  pub listen_port : ℕ
  pub rpc_timeout : ℕ
  pub rpc_threads : ℕ
  pub app_id : Str
  pub api_key : Str
  pub secret_key : Str

abbrev pub default_speech_flags : SpeechFlags
default_speech_flags = record {
  run_mode = false;
  log_file = [];
  log_level = 0;
  registry_host = utf8 "http://127.0.0.1:2379";
  base_service = utf8 "/service";
  instance_name = utf8 "/speech_service/instance";
  access_host = utf8 "127.0.0.1:10001";
  listen_port = 10001;
  rpc_timeout = 4294967295;
  rpc_threads = 1;
  app_id = utf8 "8012068";
  api_key = utf8 "pz31dgyMWksAIgFtlgY6mG1A";
  secret_key = utf8 "fSna8Sbtc3jBYKPUSTfK6IMSAHJwX2ma";
}
