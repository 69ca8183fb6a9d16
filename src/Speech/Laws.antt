-- ===== src/Speech/Laws.antt =====
-- What `SpeechRecognition` answers.
use cpp_microservice_im.Base.{
  ◌≡◌, Str, Bool, true, false, Option, some, [], ◌∷◌, ◌++◌, arith, utf8, inl, inr, if◌then◌else◌,
  ◌==◌, Option-cases,
}
use cpp_microservice_im.Base.Outcome.{done}
use cpp_microservice_im.Proto.{Reply}
use cpp_microservice_im.Speech.{Speech, recognize, speech_recognition}
use mathlib.Core.List.{append-nil}

module _ (P : Speech) where
  -- What the platform answers to a recording.
  abbrev pub answer : Str → P.State → Option P.Value
  answer speech_content s =
      (P.recognize speech_content (utf8 "pcm") 16000 ((utf8 "dev_pid", utf8 "1537") ∷ []) s).0

  pub Reported : Str → P.State → Reply Str → Type 0
  Reported speech_content s rsp =
      (result : P.Value) × (answer speech_content s ≡ some result)
      × (bad : Bool) × (P.nonzero (utf8 "err_no") result ≡ some bad)
      × (text : Str) × (if bad
            then P.text (utf8 "err_msg") result
            else P.first_text (utf8 "result") result)
          ≡ some text
      × (rsp.payload ≡ (if bad then [] else text))
      × (rsp.success ≡ (if bad then false else if text == [] then false else true))
      × (rsp.errmsg
          ≡ (if bad then utf8 "语音识别失败: " ++ text else if text == [] then utf8 "语音识别失败: " else []))

  -- Where the call answers, the platform answered with an error number and a text. Under another number
  -- than 0 the text is the message, which the answer, one of failure, repeats. Under 0 the text is what
  -- was recognised, and the answer is one of success exactly where it is not empty.
  pub speech_recognition_lem :
      (rid speech_content : Str) (s : P.State) (rsp : Reply Str)
      → (speech_recognition P rid speech_content s).0 ≡ done rsp
      → Reported speech_content s rsp
  unfolding speech_recognition recognize Reported
  speech_recognition_lem rid speech_content s rsp h =
      elim (Option-cases (answer speech_content s)) [
        | inl e ↦ absurd (ground arith)
        | inr (result, e) ↦ elim (Option-cases (P.nonzero (utf8 "err_no") result)) [
          | inl f ↦ absurd (ground arith)
          | inr (true, f) ↦ elim (Option-cases (P.text (utf8 "err_msg") result)) [
            | inl g ↦ absurd (ground arith)
            | inr (text, g) ↦
                (result, e, true, f, text, g, ground arith, ground arith, ground arith)
          ]
          | inr (false, f) ↦ elim (Option-cases (P.first_text (utf8 "result") result)) [
            | inl g ↦ absurd (ground arith)
            | inr (text, g) ↦ (
              result,
              e,
              false,
              f,
              text,
              g,
              ground arith,
              ground arith,
              ground (arith, append-nil (utf8 "语音识别失败: ")),
            )
          ]
        ]
      ]
