-- ===== src/Dms.antt =====
-- code/server/common/dms.hpp: `DMSClient`. The SDK's client is a parameter.
use cpp_microservice_im.Base.{Str, Bool, true, Option, none, some, [], ◌∷◌, if◌then◌else◌, utf8}
use cpp_microservice_im.Base.Outcome.{Outcome, done, crash, exception}

pub record SendSmsVerifyCodeRequest : Type 0 where
  pub phone_number : Str
  pub sign_name : Str
  pub template_code : Str
  pub template_param : Str
  pub return_verify_code : Bool

-- The body of the answer: its verdict, and the code of its model where it has one.
pub record SendSmsVerifyCodeBody : Type 0 where
  pub success : Bool
  pub verify_code : Option Str

-- `none` is an exception.
pub record Sms : Type 1 where
  pub State : Type 0
  pub send_sms_verify_code : SendSmsVerifyCodeRequest → State → Option SendSmsVerifyCodeBody × State

pub record Config : Type 0 where
  pub access_key_id : Str
  pub access_key_secret : Str
  pub region_id : Str
  pub endpoint : Str

-- The constructor, over what `getenv` says of the two keys: unset or empty keys throw.
unfoldable pub dms_client : Option Str → Option Str → Outcome Config
dms_client none sk = crash exception
dms_client (some []) sk = crash exception
dms_client (some (a ∷ ak)) none = crash exception
dms_client (some (a ∷ ak)) (some []) = crash exception
dms_client (some (a ∷ ak)) (some (b ∷ sk)) = done (record {
  access_key_id = a ∷ ak;
  access_key_secret = b ∷ sk;
  region_id = utf8 "cn-hangzhou";
  endpoint = utf8 "dypnsapi.aliyuncs.com";
})

abbrev pub request_for : Str → SendSmsVerifyCodeRequest
request_for phone = record {
  phone_number = phone;
  sign_name = utf8 "恒创联众";
  template_code = utf8 "100001";
  template_param = utf8 "{\"code\":\"##code##\",\"min\":\"5\"}";
  return_verify_code = true;
}

-- What `send` makes of the answer; the empty text means that the code was not sent.
unfoldable pub verify_code_of : Option SendSmsVerifyCodeBody → Str
verify_code_of none = []
verify_code_of (some body) =
    if body.success then (elim body.verify_code [ none ↦ [] | some code ↦ code ]) else []

module _ (S : Sms) where
  unfoldable pub send : Str → S.State → Str × S.State
  unfolding verify_code_of
  send phone s =
      let (answer, s') = S.send_sms_verify_code (request_for phone) s in (verify_code_of answer, s')
