-- ===== src/Tests/Processes.antt =====
-- Runs of the user service's process: a login and what follows it, and a node that comes up.
use cpp_microservice_im.Base.{
  ◌≡◌, ◌≢◌, ◌<◌, ◌^◌, refl, sym, subst, arith, contains, length, Str, true, false, none, some, [],
  ◌∷◌, Str-discrete, ℕ_discrete, utf8,
}
use cpp_microservice_im.Base.Dict
use cpp_microservice_im.Base.Outcome.{done, crash, null_pointer}
use cpp_microservice_im.Channel.{Channel, get_service_name, obtain}
use cpp_microservice_im.Channel.Manager.{get_service_name_lem}
use cpp_microservice_im.Channel.Rotation.{service_channel-IsValid}
use cpp_microservice_im.Etcd.{Event, put}
use cpp_microservice_im.Etcd.Refine.{live_after, Follows}
use cpp_microservice_im.Etcd.Threads.{task_of, find_service, finish}
use cpp_microservice_im.Mysql.{
  select_by_nickname, select_by_phone, select_by_id, transact, read_with,
}
use cpp_microservice_im.Proto.{Reply, success_response}
use cpp_microservice_im.Redis.{
  status_exists, session_append, status_append, codes_code, codes_remove, get_value, command,
}
use cpp_microservice_im.Tests.Accounts.{rid, anna, secret, full, login}
use cpp_microservice_im.Tests.Channels.{up, here}
use cpp_microservice_im.Tests.Concrete.{environment, table, store, store-IsLawful, first_user}
use cpp_microservice_im.Tests.Sessions.{users, opened, logged_in, found_anna}
use cpp_microservice_im.User.Calls.{Call, nickname}
use cpp_microservice_im.User.Calls.Channels.{get_user_info_live}
use cpp_microservice_im.User.Calls.Process.{
  Thread, Process, Reach, start, later, arrive, proceed, begin, commit,
}
use cpp_microservice_im.User.Calls.Parts.{left, over, one, set_for, choose, advance}
use cpp_microservice_im.User.Calls.Handlers.{handler_parts}
use cpp_microservice_im.User.Register.{Answer}
use mathlib.Core.Option.{Option}
use cpp_microservice_im.User.Calls.Sessions.{one_login}
use cpp_microservice_im.User.Check.{phone_check, phone_digits, char_at}
use cpp_microservice_im.User.Check.Accepted.{looks_like_phone, leading_digits}
use cpp_microservice_im.User.Env.{World}
use cpp_microservice_im.User.Login.{
  UserLoginReq, PhoneLoginReq, user_login, open_session, phone_login, phone_session,
}
use cpp_microservice_im.User.Login.Race.{session_check}
use cpp_microservice_im.User.Login.Again.{second_login}
use cpp_microservice_im.User.Profile.{get_user_info, info_of}
use cpp_microservice_im.Uuid.{uuid, random_bytes, hex, hex_digit}

abbrev berta : Str
berta = b'b' ∷ []

abbrev after_login : World environment
after_login = (user_login environment login users).1

abbrev Apart : Str → Type 0
Apart k = k ≢ b'u' ∷ []

-- GetPhoneVerifyCode is about to store its code when the login is over.
abbrev storing : Thread environment Apart
storing = (Unit {0}, left (one (set_for anna berta 60000)))

abbrev new_name : Call
new_name = nickname rid (b'u' ∷ []) berta

abbrev stored : Process environment Apart
stored = record {
  world = (advance environment Apart (one (set_for anna berta 60000)) after_login).1;
  threads =
      (Unit {0}, over (done tt))
      ∷ (Answer, left (handler_parts environment Apart new_name tt))
      ∷ [];
  handled = [];
  current = none;
}

went_on : Reach environment up Apart after_login (storing ∷ []) stored
unfolding advance command
went_on = later (later start (arrive new_name (handler_parts environment Apart new_name tt) tt)) (
    proceed [] ((Answer, left (handler_parts environment Apart new_name tt)) ∷ []) (Unit {0}) _
      (one (set_for anna berta 60000)) refl)

abbrev second_request : UserLoginReq
second_request = record { request_id = rid; nickname = anna; password = secret }

abbrev already : Reply Str
already = record { request_id = rid; success = false; errmsg = utf8 "用户已在其他地方登录! "; payload = [] }

found_again : (select_by_nickname table anna stored.world.mysql).0 ≡ some full
unfolding advance user_login open_session select_by_nickname status_exists session_append
    status_append command get_value read_with transact first_user Dict.lookup Dict.assign Dict.erase
    Str-discrete ℕ_discrete
found_again = refl

refused_again : (user_login environment second_request stored.world).0 ≡ done already
unfolding advance user_login open_session select_by_nickname status_exists session_append
    status_append command get_value read_with transact first_user Dict.lookup Dict.assign Dict.erase
    Str-discrete ℕ_discrete uuid random_bytes hex hex_digit
refused_again = refl

one_login_example : ((session_check environment full stored.world).0 ≢ done false) × (false ≡ false)
one_login_example =
    one_login environment store-IsLawful up login second_request users full full opened already
      logged_in refl found_anna (storing ∷ []) stored went_on found_again refl refused_again

-- A number that nobody registered.
abbrev free_number : Str
free_number = b'1' ∷ b'3' ∷ b'0' ∷ b'1' ∷ b'2' ∷ b'3' ∷ b'4' ∷ b'5' ∷ b'6' ∷ b'7' ∷ b'0' ∷ []

abbrev attack : PhoneLoginReq
attack = record {
  request_id = rid;
  phone_number = free_number;
  verify_code_id = b'u' ∷ [];
  verify_code = [];
}

abbrev attacked : World environment
attacked = (phone_login environment attack after_login).1

looks_right : looks_like_phone free_number ≡ true
unfolding leading_digits
looks_right = refl

nobody_there : (select_by_phone table free_number after_login.mysql).0 ≡ none
unfolding select_by_phone user_login open_session select_by_nickname status_exists session_append
    status_append command get_value read_with transact first_user Str-discrete ℕ_discrete
    Dict.lookup
nobody_there = refl

marked : store.get full.user_id after_login.redis ≡ some (some [])
unfolding user_login open_session select_by_nickname status_exists session_append status_append
    command get_value read_with transact first_user Dict.lookup Dict.assign Dict.erase Str-discrete
    ℕ_discrete uuid random_bytes hex hex_digit
marked = refl

found_still : (select_by_nickname table anna attacked.mysql).0 ≡ some full
unfolding phone_login phone_session phone_check phone_digits char_at select_by_phone codes_code
    codes_remove user_login open_session select_by_nickname status_exists session_append
    status_append command get_value read_with transact first_user Dict.lookup Dict.assign Dict.erase
    Str-discrete ℕ_discrete uuid random_bytes
found_still = refl

second_login_example :
    let ssid = (uuid environment.distribution attacked.ids).0 in
    ((phone_login environment attack after_login).0 ≡ crash null_pointer)
    × ((user_login environment login attacked).0 ≡ done (success_response rid ssid))
    × ((k : Str)
        → k ≢ full.user_id
        → k ≢ ssid
        → Dict.lookup k (user_login environment login attacked).1.redis
          ≡ Dict.lookup k after_login.redis)
unfolding store-IsLawful
second_login_example =
    second_login environment store-IsLawful attack login after_login full _ _ _ looks_right
      nobody_there refl refl marked refl found_still refl (λ e. absurd (ground arith)) refl refl

-- A manager that follows a service, and has no node of it yet.
abbrev waiting_world : World environment
waiting_world = record users {
  mm_channels = record { follow_services = [] ∷ []; services = []; next = 0 };
}

abbrev slashed : Str
slashed = b'/' ∷ here

abbrev arrival : Event
arrival = put (record { key = slashed; value = here })

-- A call takes a channel between the two regions of the event.
abbrev FreeOf : Str → Type 0
FreeOf k = Unit

abbrev joined : Process environment FreeOf
joined =
    let half = record waiting_world {
      mm_channels = find_service arrival waiting_world.mm_channels;
    } in
    let (rest, chosen) = advance environment FreeOf (one choose) half in
    record {
      world = record chosen {
        mm_channels = finish (task_of up arrival waiting_world.mm_channels) chosen.mm_channels;
      };
      threads = (Option Channel, rest) ∷ [];
      handled = arrival ∷ [];
      current = none;
    }

came_up :
    Reach environment up FreeOf waiting_world ((Option Channel, left (one choose)) ∷ []) joined
came_up =
    later
      (later (later start (begin arrival refl))
        (proceed [] [] (Option Channel) _ (one choose) refl))
      (commit arrival (task_of up arrival waiting_world.mm_channels) refl)

named : get_service_name slashed ≡ []
named = (get_service_name_lem [] here ((λ e. absurd (ground arith)), tt)).0

one_live : live_after [] (arrival ∷ []) [] ≡ here ∷ []
unfolding live_after
one_live = ground (arith, named)

found_full : (select_by_id table (b'u' ∷ []) joined.world.mysql).0 ≡ some full
unfolding advance select_by_id read_with transact first_user Str-discrete ℕ_discrete Dict.lookup
    find_service obtain
found_full = refl

waiting-Follows : Follows [] waiting_world.mm_channels
unfolding contains obtain Dict.lookup Str-discrete
waiting-Follows = record { followed = refl; valid = service_channel-IsValid 0 [] }

get_user_info_live_example :
    (c : Channel) × (contains c.host (live_after [] (arrival ∷ []) []) ≡ true)
    × (((get_user_info environment rid (b'u' ∷ []) joined.world).1.files ≡ tt)
        × ((get_user_info environment rid (b'u' ∷ []) joined.world).0
            ≡ done (success_response rid (some (record (info_of full) { avatar = b'x' ∷ [] })))))
unfolding contains obtain Dict.lookup advance
get_user_info_live_example =
    get_user_info_live environment up FreeOf (λ a h. refl) waiting_world _ joined rid (b'u' ∷ []) []
      full came_up waiting-Follows ((λ e. refl), tt) (λ e. absurd (ground (arith, one_live)))
      (subst (λ l. length l < 2 ^ 31) (sym one_live) (omega arith)) found_full refl
