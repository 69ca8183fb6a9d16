-- ===== src/Proto.antt =====
-- code/server/proto: the response messages. Each carries the request's identifier, whether the call
-- succeeded, an error text, and last a payload that is empty until it is set.
use cpp_microservice_im.Base.{Str, String, Bool, true, false, [], utf8}

pub record Reply (A : Type 0) : Type 0 where
  pub request_id : Str
  pub success : Bool
  pub errmsg : Str
  pub payload : A

abbrev pub reply : {A : Type 0} → Str → A → Reply A
reply rid a = record { request_id = rid; success = false; errmsg = []; payload = a }

-- `set_success(false)` and `set_errmsg`.
abbrev pub failed : {A : Type 0} → String → Reply A → Reply A
failed message rsp = record rsp { success = false; errmsg = utf8 message }

-- The lambda `err_response` of the user service's calls.
abbrev pub err_response : {A : Type 0} → Str → String → A → Reply A
err_response rid message a = failed message (reply rid a)

abbrev pub success_response : {A : Type 0} → Str → A → Reply A
success_response rid a = record (reply rid a) { success = true }
