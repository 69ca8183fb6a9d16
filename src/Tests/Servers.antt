-- ===== src/Tests/Servers.antt =====
-- The speech service, the search engine and the builders.
use cpp_microservice_im.Base.{
  ℕ, ◌≤◌, ◌<◌, ◌≡◌, refl, Str, Bool, true, false, Option, some, [], ◌∷◌, utf8, Str-discrete,
}
use cpp_microservice_im.Base.Outcome.{done}
use cpp_microservice_im.Builder.{
  UserServerBuilder, Leases, node_of, Registered, user_server_builder, is_set, make_es_object,
  make_dms_object, make_mysql_object, make_redis_object, make_discovery_object, make_rpc_object,
}
use cpp_microservice_im.Builder.Flags.{default_flags, default_file_flags, default_speech_flags}
use cpp_microservice_im.Builder.Main.{user_main, server_for, user_main_lem}
use cpp_microservice_im.Builder.Order.{
  es_object, dms_object, mysql_object, redis_object, discovery_object, rpc_object, Reachable, start,
  later,
}
use cpp_microservice_im.Dms.{Config, dms_client}
use cpp_microservice_im.Es.{insert_insert}
use cpp_microservice_im.EsUser.{append_data}
use cpp_microservice_im.EsUser.Document.{append_data_success}
use cpp_microservice_im.Etcd.{Listing}
use cpp_microservice_im.Proto.{Reply, success_response}
use cpp_microservice_im.Speech.{Speech, recognize, speech_recognition}
use cpp_microservice_im.Speech.Laws.{Reported, speech_recognition_lem}
use cpp_microservice_im.Tests.Concrete.{documents, documents-IsLawful, engine, Doc, member, null}

abbrev rid : Str
rid = []

-- A platform that hears the same in every recording.
abbrev hearing : Speech
hearing = record {
  State = Unit {0};
  Value = Str;
  recognize = λ sound format rate options s. (some (b'h' ∷ []), s);
  nonzero = λ key v. some false;
  text = λ key v. some v;
  first_text = λ key v. some v;
}

abbrev heard : Reply Str
heard = success_response rid (b'h' ∷ [])

recognised : (speech_recognition hearing rid [] tt).0 ≡ done heard
unfolding speech_recognition recognize Str-discrete
recognised = refl

speech_recognition_lem_example : Reported hearing [] tt heard
speech_recognition_lem_example = speech_recognition_lem hearing rid [] tt heard recognised

indexed : (append_data documents engine [] [] [] [] [] 0).0 ≡ true
unfolding append_data insert_insert
indexed = refl

append_data_success_example :
    (item : Doc) × (body : Str) × (status : ℕ) × (member (utf8 "user_id") item ≡ some (Doc.text []))
    × (member (utf8 "nickname") item ≡ some (Doc.text []))
    × (member (utf8 "phone") item ≡ some (Doc.text []))
    × (member (utf8 "description") item ≡ some (Doc.text []))
    × (member (utf8 "avatar_id") item ≡ some (Doc.text []))
    × (documents.write item ≡ some body)
    × ((engine.index (utf8 "user") (utf8 "_doc") [] body 0).0 ≡ some status)
    × (200 ≤ status)
    × (status < 300)
append_data_success_example =
    append_data_success documents engine (documents-IsLawful null) [] [] [] [] [] 0 indexed

abbrev up : ℕ → Str → Bool
up a h = false

abbrev nothing : Str → Str → Listing
nothing host basedir = record { is_ok = true; entries = [] }

abbrev key : Option Str
key = some (b'k' ∷ [])

abbrev config : Config
config = record { access_key_id = []; access_key_secret = []; region_id = []; endpoint = [] }

abbrev b1 : UserServerBuilder
b1 = (make_es_object [] user_server_builder).1

abbrev b2 : UserServerBuilder
b2 = (make_dms_object (done config) b1).1

abbrev b3 : UserServerBuilder
b3 = (make_mysql_object [] [] [] [] [] 0 4 b2).1

abbrev b4 : UserServerBuilder
b4 = (make_redis_object [] 6379 0 1 b3).1

abbrev b5 : UserServerBuilder
b5 = (make_discovery_object up nothing [] [] [] b4).1

abbrev b6 : UserServerBuilder
b6 = (make_rpc_object true true 10003 0 1 b5).1

all_reached : Reachable b6
all_reached =
    later
      (later
        (later
          (later (later (later start (es_object [])) (dms_object (done config)))
            (mysql_object [] [] [] [] [] 0 4))
          (redis_object [] 6379 0 1))
        (discovery_object up nothing [] [] []))
      (rpc_object true true 10003 0 1)

serving : is_set b6.rpc_server ≡ true
unfolding make_es_object make_dms_object make_mysql_object make_redis_object make_discovery_object
    make_rpc_object
serving = refl

-- A disk where no log can be opened, and an etcd that gives a lease and refuses the put.
abbrev shut : Str → Bool
shut file = false

abbrev refusing : Leases
refusing = record { keeps_alive = λ host. true; puts_key = λ host key value. false }

user_main_lem_example :
    let (o, b) =
      user_main shut
        (dms_client key key)
        up
        nothing
        refusing
        default_flags
        true
        true
        user_server_builder in
    (o ≡ done (server_for refusing default_flags)) × (is_set b.registry_client ≡ true)
user_main_lem_example = user_main_lem shut key key up nothing refusing default_flags true true

abbrev speech_node : Registered
speech_node =
    node_of refusing default_speech_flags.registry_host default_speech_flags.base_service
      default_speech_flags.instance_name default_speech_flags.access_host

abbrev file_node : Registered
file_node =
    node_of refusing default_file_flags.registry_host default_file_flags.base_service
      default_file_flags.instance_name default_file_flags.access_host
