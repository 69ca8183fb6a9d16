-- ===== src/Logger.antt =====
-- code/server/common/logger.hpp: `init_logger`. spdlog is what the logger is made with; `opens` says which
-- files it can open for writing, where otherwise it throws.
use cpp_microservice_im.Base.{ℕ, Str, Bool, if◌then◌else◌, utf8}
use cpp_microservice_im.Base.Outcome.{Outcome, done, crash, exception, M}

pub data Sink : Type 0 where
  stdout_color : Sink
  basic_file : Str → Sink

-- A level is its number; `trace`, the lowest, is 0.
pub record Logger : Type 0 where
  pub name : Str
  pub sink : Sink
  pub level : ℕ
  pub flush_level : ℕ
  pub pattern : Str

unfoldable pub init_logger : (Str → Bool) → Bool → Str → ℕ → Outcome Logger
init_logger opens mode file level =
    let pattern = utf8 "[%n][%H%M%S][%t][%-8l]%v" in
    let name = utf8 "default-logger" in
    if mode
    then if opens file
      then done (record {
        name = name;
        sink = basic_file file;
        level = level;
        flush_level = level;
        pattern = pattern;
      })
      else crash exception
    else done
        (record { name = name; sink = stdout_color; level = 0; flush_level = 0; pattern = pattern })

-- The call of it in each `main`.
abbrev pub with_logger : {S : Type 0} → Outcome Logger → M S (Unit {0})
with_logger (done logger) s = (done tt, s)
with_logger (crash e) s = (crash e, s)
