-- ===== src/Speech.antt =====
-- code/server/common/asr.hpp: `ASRClient`, and code/server/speech/source/speech_server.hpp:
-- `SpeechServiceImpl`. The SDK's client and its JSON values are a parameter.
pub mod Laws
use cpp_microservice_im.Base.{
  ℕ, Str, String, Bool, true, false, not, Option, none, some, List, [], ◌∷◌, ◌++◌, if◌then◌else◌,
  ◌==◌, utf8,
}
use cpp_microservice_im.Base.Dict.{Dict}
use cpp_microservice_im.Base.Outcome.{Outcome, done, crash, exception, M, pure, fail, ◌>>=◌}
use cpp_microservice_im.Proto.{Reply}

-- `recognize` takes the bytes, their format, the sample rate and the options. `nonzero`, `text` and
-- `first_text` are `v[key].asInt() != 0`, `v[key].asString()` and `v[key][0].asString()`; `none`
-- is an exception.
pub record Speech : Type 1 where
  pub State : Type 0
  pub Value : Type 0
  pub recognize : Str → Str → ℕ → Dict Str → State → Option Value × State
  pub nonzero : Str → Value → Option Bool
  pub text : Str → Value → Option Str
  pub first_text : Str → Value → Option Str

abbrev pub or_throw : {S A : Type 0} → Option A → M S A
or_throw none = fail exception
or_throw (some a) = pure a

module _ (P : Speech) where
  abbrev pub call : {A : Type 0} → (P.State → A × P.State) → M P.State A
  call f s = let (a, s') = f s in (done a, s')

  -- The text that was recognised, and what is in `err` afterwards.
  unfoldable pub recognize : Str → Str → M P.State (Str × Str)
  recognize speech_data err = do
    rsp ← call (P.recognize speech_data (utf8 "pcm") 16000 ((utf8 "dev_pid", utf8 "1537") ∷ []))
    result ← or_throw rsp
    bad ← or_throw (P.nonzero (utf8 "err_no") result)
    if bad
        then (or_throw (P.text (utf8 "err_msg") result) >>= λ message. pure ([], message))
        else (or_throw (P.first_text (utf8 "result") result) >>= λ recognised.
            pure (recognised, err))

  -- The payload is `recognition_result`.
  unfoldable pub speech_recognition : Str → Str → M P.State (Reply Str)
  speech_recognition request_id speech_content = do
    (res, err) ← recognize speech_content []
    if res == []
        then pure (record {
          request_id = request_id;
          success = false;
          errmsg = utf8 "语音识别失败: " ++ err;
          payload = [];
        })
        else pure (record { request_id = request_id; success = true; errmsg = []; payload = res })
