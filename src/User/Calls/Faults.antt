-- ===== src/User/Calls/Faults.antt =====
-- Where a call can break off.
use cpp_microservice_im.Base.{
  ◌≡◌, refl, Str, String, Bool, true, false, ◌||◌, Option, List, [], ◌∷◌,
}
use cpp_microservice_im.Base.Outcome.{
  crash, Fault, exception, null_pointer, null_value, out_of_range, aborted, M,
}
use cpp_microservice_im.Channel.{Channel}
use cpp_microservice_im.Mysql.{User}
use cpp_microservice_im.User.Calls.{
  Call, registering, logging_in, asking_code, phone_registering, phone_logging_in, user_info,
  multi_user_info, avatar, nickname, description, phone_number, handler,
}
use cpp_microservice_im.User.Env.{Env, World}
use cpp_microservice_im.User.Login.{
  UserLoginReq, PhoneLoginReq, user_login, open_session, phone_login, phone_session,
}
use cpp_microservice_im.User.Profile.{
  get_user_info, get_multi_user_info, avatar_ids, set_user_avatar, set_user_nickname,
  set_user_description, set_user_phone_number, store_user, with_user,
}
use cpp_microservice_im.User.Register.{
  Answer, UserRegisterReq, PhoneRegisterReq, PhoneVerifyCodeReq, user_register, register_new,
  phone_register, phone_register_new, get_phone_verify_code,
}
use cpp_microservice_im.User.Calls.Within.{
  Within, Breaks, fault_rules, Within-pure, Within-option, Within-found, sql, choosing,
}

-- An exception of redis, `*` on a null `odb::nullable`, and `->` on a null `shared_ptr`.
abbrev pub is_exception : Fault → Bool
is_exception exception = true
is_exception null_pointer = false
is_exception null_value = false
is_exception out_of_range = false
is_exception aborted = false

abbrev pub is_null_value : Fault → Bool
is_null_value null_value = true
is_null_value exception = false
is_null_value null_pointer = false
is_null_value out_of_range = false
is_null_value aborted = false

abbrev pub is_null_pointer : Fault → Bool
is_null_pointer null_pointer = true
is_null_pointer exception = false
is_null_pointer null_value = false
is_null_pointer out_of_range = false
is_null_pointer aborted = false

-- The faults of each call.
abbrev pub breaks_off : Call → Fault → Bool
breaks_off (registering r) e = false
breaks_off (logging_in r) e = is_exception e || is_null_value e
breaks_off (asking_code r) e = is_exception e
breaks_off (phone_registering r) e = is_exception e
breaks_off (phone_logging_in r) e = is_exception e || is_null_pointer e
breaks_off (user_info rid uid) e = false
breaks_off (multi_user_info rid uids) e = is_null_value e
breaks_off (avatar rid uid content) e = is_null_value e
breaks_off (nickname rid uid name) e = is_null_value e
breaks_off (description rid uid text) e = is_null_value e
breaks_off (phone_number rid uid phone code code_id) e = is_exception e || is_null_value e

module _ (E : Env) (ok : Fault → Bool) where
  newcomer : (r : UserRegisterReq) → Breaks E ok (register_new E r)
  unfolding register_new
  newcomer r = search fault_rules depth 20

  registration : (r : UserRegisterReq) → Breaks E ok (user_register E r)
  unfolding user_register
  registration r = search (fault_rules, newcomer) depth 20

  info : (rid uid : Str) → Breaks E ok (get_user_info E rid uid)
  unfolding get_user_info
  info rid uid = Within-found {A = User} _ _ _ (sql E ok _) (Within-pure _) λ user.
      Within-option user.avatar_id _ _ (Within-pure _) λ id.
        Within-found {A = Channel} _ _ _ (choosing E ok) (Within-pure _)
          λ c. search fault_rules depth 20

  -- Calls of redis.
  module _ (r : ok exception ≡ true) where
    opening : (rid : Str) (user : User) → Breaks E ok (open_session E rid user)
    unfolding open_session
    opening rid user = search fault_rules depth 20

    codes : (q : PhoneVerifyCodeReq) → Breaks E ok (get_phone_verify_code E q)
    unfolding get_phone_verify_code
    codes q = search fault_rules depth 20

    phone_newcomer : (q : PhoneRegisterReq) → Breaks E ok (phone_register_new E q)
    unfolding phone_register_new
    phone_newcomer q = search fault_rules depth 20

    phone_registration : (q : PhoneRegisterReq) → Breaks E ok (phone_register E q)
    unfolding phone_register
    phone_registration q = search (fault_rules, phone_newcomer) depth 20

    logging : (q : UserLoginReq) → ok null_value ≡ true → Breaks E ok (user_login E q)
    unfolding user_login
    logging q v = search (fault_rules, opening) depth 20

    phone_opening :
        (q : PhoneLoginReq) (o : Option User)
        → ok null_pointer ≡ true
        → Breaks E ok (phone_session E q o)
    unfolding phone_session
    phone_opening q o p = search fault_rules depth 25

    phone_logging : (q : PhoneLoginReq) → ok null_pointer ≡ true → Breaks E ok (phone_login E q)
    unfolding phone_login
    phone_logging q p = search (fault_rules, phone_opening) depth 20

  -- Calls that follow the fields of a user.
  module _ (v : ok null_value ≡ true) where
    storing : (rid : Str) (me ee : String) (user : User) → Breaks E ok (store_user E rid me ee user)
    unfolding store_user
    storing rid me ee user = search fault_rules depth 20

    found_user :
        (rid uid : Str) (f : User → M (World E) Answer)
        → ((user : User) → Breaks E ok (f user))
        → Breaks E ok (with_user E rid uid f)
    unfolding with_user
    found_user rid uid f k = search fault_rules depth 10

    all_avatars : (users : List User) → Breaks E ok (avatar_ids E users)
    unfolding avatar_ids
    all_avatars [] = Within-pure []
    all_avatars (user ∷ users) = let rest = all_avatars users in search fault_rules depth 12

    multi_info : (rid : Str) (uids : List Str) → Breaks E ok (get_multi_user_info E rid uids)
    unfolding get_multi_user_info
    multi_info rid uids = search (fault_rules, all_avatars) depth 20

    new_avatar : (rid uid content : Str) → Breaks E ok (set_user_avatar E rid uid content)
    unfolding set_user_avatar
    new_avatar rid uid content = search (fault_rules, storing, found_user) depth 20

    new_nickname : (rid uid name : Str) → Breaks E ok (set_user_nickname E rid uid name)
    unfolding set_user_nickname
    new_nickname rid uid name = search (fault_rules, storing, found_user) depth 20

    new_description : (rid uid text : Str) → Breaks E ok (set_user_description E rid uid text)
    unfolding set_user_description
    new_description rid uid text = search (fault_rules, storing, found_user) depth 20

    new_phone :
        (rid uid phone code code_id : Str)
        → ok exception ≡ true
        → Breaks E ok (set_user_phone_number E rid uid phone code code_id)
    unfolding set_user_phone_number
    new_phone rid uid phone text code_id r = search (fault_rules, storing, found_user) depth 20

handler-Within : (E : Env) (c : Call) → Within (breaks_off c) (handler E c)
unfolding handler
handler-Within E (registering r) = registration E _ r
handler-Within E (logging_in r) = logging E _ refl r refl
handler-Within E (asking_code r) = codes E _ refl r
handler-Within E (phone_registering r) = phone_registration E _ refl r
handler-Within E (phone_logging_in r) = phone_logging E _ refl r refl
handler-Within E (user_info rid uid) = info E _ rid uid
handler-Within E (multi_user_info rid uids) = multi_info E _ refl rid uids
handler-Within E (avatar rid uid content) = new_avatar E _ refl rid uid content
handler-Within E (nickname rid uid name) = new_nickname E _ refl rid uid name
handler-Within E (description rid uid text) = new_description E _ refl rid uid text
handler-Within E (phone_number rid uid phone text code_id) =
    new_phone E _ refl rid uid phone text code_id refl

-- Whatever its clients answer, a call breaks off at most so: the setters and GetMultiUserInfo at a null
-- field of a user, UserLogin at an exception of redis or a null password, PhoneLogin at an exception of
-- redis or the null pointer of the user, GetPhoneVerifyCode and PhoneRegister at an exception of redis,
-- SetUserPhoneNumber at that or a null field; UserRegister and GetUserInfo never do.
pub handler_faults :
    (E : Env) (c : Call) (w : World E) (e : Fault)
    → (handler E c w).0 ≡ crash e
    → breaks_off c e ≡ true
handler_faults E c w e h = (handler-Within E c).at w e h
