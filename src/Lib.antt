-- ===== src/Lib.antt =====
-- The services of an instant messenger: user, file and speech service, with what they share.
--
-- A process of each service registers under a key of etcd (code/server/common/etcd.hpp). The user
-- service watches etcd, and hands what it sees to a manager of channels
-- (code/server/common/channel.hpp), from which it takes a channel to a node of the file service in
-- turn. It keeps its users in MySQL, the search documents in Elasticsearch, and sessions, login marks
-- and verification codes in redis; codes are sent by an SMS platform.
--
-- Base: numbers, texts as lists of bytes, association lists, and the state monad with faults.
-- Channel: `ServiceChannel` and `ServiceManager`; a channel is its address with its host, and the
--   manager counts the objects that it allocates.
-- Etcd: `Discovery` and `Registry` of code/server/common/etcd.hpp; the client's answers are values.
--   Etcd.Threads has the watcher's thread and the threads of the RPC server as steps: an event takes
--   the manager's mutex and then the service's, and calls of `choose` run in between.
-- Proto: the response messages of code/server/proto.
-- Uuid, File: `uuid`, `readFile` and `writeFile` of code/server/common/utils.hpp, and the file service
--   of code/server/file/source/file_server.hpp; File.Calls has its calls in a row, File.Threads its
--   uploads as threads, cut at each identifier and each operation of the file system.
-- Redis, Mysql, Es, EsUser, Dms, Mq: code/server/common/data_redis.hpp, data_mysql.hpp with
--   code/server/odb/user.hxx, icsearch.hpp, data_es.hpp, dms.hpp and rabbitmq.hpp. The laws that the
--   libraries are taken to keep stand beside them (Redis, Redis.Clock for the time that redis keeps a
--   key, Mysql.Laws, Es.Laws, File.Laws, File.Streams, Mq.Routing).
-- User: the eleven calls and the checks of code/server/user/source/user_server.hpp. A call acts on a
--   `World`, the states of the clients; `Env` has the clients. User.Calls has the eleven as requests
--   of a process: the threads that serve them are cut at each operation of a client, and they and the
--   watcher's thread interleave. User.Flows has calls one after the other, and the user service with
--   the model of the file service behind its stub.
-- Logger: `init_logger` of code/server/common/logger.hpp.
-- Speech: code/server/common/asr.hpp and the call of code/server/speech/source/speech_server.hpp.
-- Builder: the builders of the three servers, the calls of their `main` with their flags
--   (code/server/user/source/user_server.cc and its like), and what the objects are made with.
-- Tests: concrete clients, runs, and an example of each result.
--
-- The file system, redis, ODB, JsonCpp, elasticlient, the SDKs for SMS and speech and the stub of the
-- file service are parameters; where a result needs more of them than their operations, it takes a
-- record of named laws. An exception that a call does not catch, a null pointer, an empty
-- `odb::nullable`, a read out of range and `abort()` are faults, which end a call with the state so
-- far. The `int32_t` counter of a service's channels and the 16-bit counter of identifiers are bit
-- patterns that wrap, and a flag is cut to the width that it is passed in. All loops are structural
-- recursion, over lists or over the rounds that are left, so nothing takes fuel. The loop of the
-- message queue client goes on until its destructor wakes it, and the wake-up may be lost; it is a
-- function of the finite list of what it was told. Memory does not run out; a size that no string can
-- have is an exception.
--
-- Not modelled: what is logged; the mutexes themselves, since a region under one is one step; the
-- time that passes while calls of the process run; the threads, watchers and connections of the
-- libraries, but for the order in which they run the code; the copies of cpp-httplib and of the
-- speech SDK; generated code, tests and the trials under example.
pub mod Base
pub mod Channel
pub mod Etcd
pub mod Proto
pub mod Uuid
pub mod File
pub mod Redis
pub mod Logger
pub mod Mq
pub mod Mysql
pub mod Es
pub mod EsUser
pub mod Dms
pub mod Speech
pub mod User
pub mod Builder
mod Tests
