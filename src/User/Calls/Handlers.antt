-- ===== src/User/Calls/Handlers.antt =====
-- The parts of the eleven handlers.
use cpp_microservice_im.Base.{Str, String, Option, none, some, List, [], ◌∷◌}
use cpp_microservice_im.Base.Outcome.{M, ◌>>=◌}
use cpp_microservice_im.Channel.{Channel}
use cpp_microservice_im.Mysql.{User}
use cpp_microservice_im.Proto.{Reply}
use cpp_microservice_im.User.Env.{Env, World, on_files}
use cpp_microservice_im.User.Calls.{
  Call, registering, logging_in, asking_code, phone_registering, phone_logging_in, user_info,
  multi_user_info, avatar, nickname, description, phone_number, Answers, handler,
}
use cpp_microservice_im.User.Calls.Closed.{Removes}
use cpp_microservice_im.User.Calls.Parts.{
  mysql, choose, Parts, one, chain, left, Alone, Parts-Alone,
}
use cpp_microservice_im.User.Login.{
  UserLoginReq, PhoneLoginReq, user_login, open_session, phone_login, phone_session,
}
use cpp_microservice_im.User.Profile.{
  get_user_info, get_multi_user_info, avatar_ids, set_user_avatar, set_user_nickname,
  set_user_description, set_user_phone_number, store_user, with_user, payload_of,
}
use cpp_microservice_im.User.Register.{
  Answer, UserRegisterReq, PhoneRegisterReq, PhoneVerifyCodeReq, user_register, register_new,
  phone_register, phone_register_new, get_phone_verify_code,
}
use cpp_microservice_im.User.Calls.Operations.{
  Made, client_rules, answer, lookup, choice, spent_code,
}

module _ (E : Env) (R : Str → Type 0) where
  opening : (rid : Str) (user : User) → Made E R (open_session E rid user)
  unfolding open_session
  opening rid user = search client_rules depth 20

  logging : (r : UserLoginReq) → Made E R (user_login E r)
  unfolding user_login
  logging r = search (client_rules, opening) depth 20

  newcomer : (r : UserRegisterReq) → Made E R (register_new E r)
  unfolding register_new
  newcomer r = search client_rules depth 20

  registration : (r : UserRegisterReq) → Made E R (user_register E r)
  unfolding user_register
  registration r = search (client_rules, newcomer) depth 20

  codes : (r : PhoneVerifyCodeReq) → Made E R (get_phone_verify_code E r)
  unfolding get_phone_verify_code
  codes r = search client_rules depth 20

  phone_newcomer : (r : PhoneRegisterReq) → Made E R (phone_register_new E r)
  unfolding phone_register_new
  phone_newcomer r = search client_rules depth 20

  phone_registration : (r : PhoneRegisterReq) → Made E R (phone_register E r)
  unfolding phone_register
  phone_registration r = search (client_rules, phone_newcomer) depth 20

  phone_opening :
      (r : PhoneLoginReq) (o : Option User) → R r.verify_code_id → Made E R (phone_session E r o)
  unfolding phone_session
  phone_opening r o x = search (client_rules, spent_code) depth 25

  phone_logging : (r : PhoneLoginReq) → R r.verify_code_id → Made E R (phone_login E r)
  unfolding phone_login
  phone_logging r x = search (client_rules, phone_opening) depth 20

  storing : (rid : Str) (me ee : String) (user : User) → Made E R (store_user E rid me ee user)
  unfolding store_user
  storing rid me ee user = search client_rules depth 20

  found_user :
      (rid uid : Str) (f : User → M (World E) Answer)
      → ((user : User) → Made E R (f user))
      → Made E R (with_user E rid uid f)
  unfolding with_user
  found_user rid uid f k = search client_rules depth 10

  -- A call of the file service, and what is done with its answer.
  asking :
      {A B : Type 0} (f : E.file.State → Option (Reply A) × E.file.State) (n : M (World E) B)
      (k : A → M (World E) B)
      → Made E R (on_files E f)
      → Made E R n
      → ((a : A) → Made E R (k a))
      → Made E R (on_files E f >>= λ answer. elim (payload_of answer) [ none ↦ n | some a ↦ k a ])
  asking f n k kf kn kk = chain kf λ answer. choice E R (payload_of answer) n k kn kk

  info : (rid uid : Str) → Made E R (get_user_info E rid uid)
  unfolding get_user_info
  info rid uid = lookup E R {A = User} _ _ _ (one (mysql _)) (answer E R _) λ user.
      choice E R user.avatar_id _ _ (answer E R _) λ id.
        lookup E R {A = Channel} _ _ _ (one choose) (answer E R _)
          λ c. search (client_rules, asking) depth 20

  all_avatars : (users : List User) → Made E R (avatar_ids E users)
  unfolding avatar_ids
  all_avatars [] = answer E R []
  all_avatars (user ∷ users) = let rest = all_avatars users in search client_rules depth 12

  multi_info : (rid : Str) (uids : List Str) → Made E R (get_multi_user_info E rid uids)
  unfolding get_multi_user_info
  multi_info rid uids = search (client_rules, asking, all_avatars) depth 20

  new_avatar : (rid uid content : Str) → Made E R (set_user_avatar E rid uid content)
  unfolding set_user_avatar
  new_avatar rid uid content = search (client_rules, asking, storing, found_user) depth 20

  new_nickname : (rid uid name : Str) → Made E R (set_user_nickname E rid uid name)
  unfolding set_user_nickname
  new_nickname rid uid name = search (client_rules, storing, found_user) depth 20

  new_description : (rid uid text : Str) → Made E R (set_user_description E rid uid text)
  unfolding set_user_description
  new_description rid uid text = search (client_rules, storing, found_user) depth 20

  new_phone :
      (rid uid phone code code_id : Str)
      → Made E R (set_user_phone_number E rid uid phone code code_id)
  unfolding set_user_phone_number
  new_phone rid uid phone text code_id = search (client_rules, storing, found_user) depth 20

  -- Every handler is made of operations of its clients, which remove no key but those of `Removes`.
  pub handler_parts : (c : Call) → Removes R c → Parts E R (Answers c) (handler E c)
  unfolding handler
  handler_parts (registering r) x = registration r
  handler_parts (logging_in r) x = logging r
  handler_parts (asking_code r) x = codes r
  handler_parts (phone_registering r) x = phone_registration r
  handler_parts (phone_logging_in r) x = phone_logging r x
  handler_parts (user_info rid uid) x = info rid uid
  handler_parts (multi_user_info rid uids) x = multi_info rid uids
  handler_parts (avatar rid uid content) x = new_avatar rid uid content
  handler_parts (nickname rid uid name) x = new_nickname rid uid name
  handler_parts (description rid uid text) x = new_description rid uid text
  handler_parts (phone_number rid uid phone text code_id) x = new_phone rid uid phone text code_id

  -- A thread that runs alone does what the handler says in one go: after finitely many operations it is
  -- over, with the handler's outcome and state, also where the call breaks off.
  pub handler-Alone :
      (c : Call) (x : Removes R c) (w : World E)
      → Alone E R (left (handler_parts c x)) w (handler E c w)
  handler-Alone c x w = Parts-Alone E R (handler_parts c x) w
