-- ===== src/Tests/Clocks.antt =====
-- A redis with a clock, and a code that is sent and used too late.
use cpp_microservice_im.Base.{
  ℕ, true, ◌-◌, ◌≡◌, refl, Str, Option, none, some, [], ◌∷◌, ltb, if◌then◌else◌, ◌==◌, arith,
  Str-discrete,
}
use mathlib.Core.Option.{some-injective}
use cpp_microservice_im.Base.{sym, ap, ◌∙◌}
use cpp_microservice_im.Base.Outcome.{done}
use cpp_microservice_im.Dms.{send, verify_code_of}
use cpp_microservice_im.Mysql.{select_by_phone, read_with}
use cpp_microservice_im.Proto.{success_response}
use cpp_microservice_im.Redis.{Redis, IsLawful, codes_append, command}
use cpp_microservice_im.Redis.Clock.{HasClock}
use cpp_microservice_im.Tests.Accounts.{rid, number}
use cpp_microservice_im.Tests.Concrete.{environment, table, platform, first_user}
use cpp_microservice_im.Tests.Concrete
use cpp_microservice_im.User.Check.{phone_check, phone_digits, char_at}
use cpp_microservice_im.User.Check.Accepted.{looks_like_phone, leading_digits}
use cpp_microservice_im.User.Env.{Env, World}
use cpp_microservice_im.User.Flows.Code.{phone_register-get_phone_verify_code}
use cpp_microservice_im.User.Register.{
  PhoneVerifyCodeReq, get_phone_verify_code, phone_register, user_error,
}
use cpp_microservice_im.Uuid.{uuid}

-- A value, and how long it stays.
abbrev Cell : Type 0
Cell = Str × Option ℕ

abbrev Cells : Type 0
Cells = Str → Option Cell

abbrev value_in : Option Cell → Option Str
value_in none = none
value_in (some (v, left)) = some v

abbrev time_in : Option Cell → Option ℕ
time_in none = none
time_in (some (v, left)) = left

abbrev aged : ℕ → Option Cell → Option Cell
aged n none = none
aged n (some (v, none)) = some (v, none)
aged n (some (v, some ms)) = if ltb n ms then some (v, some (ms - n)) else none

abbrev timed : Redis
timed = record {
  State = Cells;
  set = λ k v s. some (λ j. if j == k then some (v, none) else s j);
  set_for = λ k v ms s. some (λ j. if j == k then some (v, some ms) else s j);
  del = λ k s. some (λ j. if j == k then none else s j);
  get = λ k s. some (value_in (s k));
}

unfoldable pub timed-IsLawful : IsLawful timed
timed-IsLawful = record {
  content = λ s k. value_in (s k);
  get-content = λ k s r e. sym (some-injective _ _ e);
  content-set = λ j k v s t e. ap (λ f. value_in (f j)) (sym (some-injective _ _ e)) ∙ ground arith;
  content-set_for =
      λ j k v ms s t e. ap (λ f. value_in (f j)) (sym (some-injective _ _ e)) ∙ ground arith;
  content-del = λ j k s t e. ap (λ f. value_in (f j)) (sym (some-injective _ _ e)) ∙ ground arith;
}

aged_lem :
    (n : ℕ) (c : Option Cell)
    → value_in (aged n c)
      ≡ (elim (time_in c) [ none ↦ value_in c | some ms ↦ if ltb n ms then value_in c else none ])
aged_lem n none = refl
aged_lem n (some (v, none)) = refl
aged_lem n (some (v, some ms)) = ground arith

clock : HasClock timed timed-IsLawful
unfolding timed-IsLawful
clock = record {
  lives = λ s k. time_in (s k);
  pass = λ n s j. aged n (s j);
  lives-set = λ j k v s t e. ap (λ f. time_in (f j)) (sym (some-injective _ _ e)) ∙ ground arith;
  lives-set_for =
      λ j k v ms s t e. ap (λ f. time_in (f j)) (sym (some-injective _ _ e)) ∙ ground arith;
  content-pass = λ j n s. aged_lem n (s j);
}

abbrev timed_environment : Env
timed_environment = record environment { redis = timed }

abbrev empty : World timed_environment
empty = record {
  es = 0;
  mysql = [];
  redis = λ k. none;
  sms = tt;
  files = tt;
  mm_channels = (Concrete.world [] []).mm_channels;
  ids = (Concrete.world [] []).ids;
}

abbrev asked : PhoneVerifyCodeReq
asked = record { request_id = rid; phone_number = number }

abbrev code_sent : World timed_environment
code_sent = (get_phone_verify_code timed_environment asked empty).1

abbrev code_id : Str
code_id = (uuid environment.distribution empty.ids).0

sent : (get_phone_verify_code timed_environment asked empty).0 ≡ done (success_response rid code_id)
unfolding get_phone_verify_code phone_check phone_digits char_at send verify_code_of codes_append
    command Str-discrete
sent = refl

-- Another number than the one that was asked for.
abbrev second : Str
second = b'1' ∷ b'5' ∷ b'0' ∷ b'1' ∷ b'2' ∷ b'3' ∷ b'4' ∷ b'5' ∷ b'6' ∷ b'7' ∷ b'8' ∷ []

second_right : looks_like_phone second ≡ true
unfolding leading_digits
second_right = refl

-- Two minutes later.
abbrev two_minutes : World timed_environment
two_minutes = record code_sent { redis = clock.pass 120000 code_sent.redis }

second_free : select_by_phone table second two_minutes.mysql ≡ (none, [])
unfolding select_by_phone read_with first_user get_phone_verify_code phone_check phone_digits
    char_at send verify_code_of codes_append command Str-discrete
second_free = refl

phone_register-get_phone_verify_code_example :
    phone_register timed_environment
      (record {
        request_id = rid;
        phone_number = second;
        verify_code_id = code_id;
        verify_code = (send platform number tt).0;
      })
      two_minutes
    ≡ (done (user_error rid "验证码错误! "), two_minutes)
phone_register-get_phone_verify_code_example =
    phone_register-get_phone_verify_code timed_environment timed-IsLawful clock 120000 asked empty
      two_minutes (success_response rid code_id) rid second []
      (value_in (two_minutes.redis code_id)) sent refl refl refl second_right second_free
