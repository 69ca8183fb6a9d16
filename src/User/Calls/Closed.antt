-- ===== src/User/Calls/Closed.antt =====
-- What an operation of the clients keeps: the steps that the calls are made of.
use cpp_microservice_im.Base.{ℕ, suc, ◌≡◌, List, refl, sym, subst, Str, Option, none, some}
use cpp_microservice_im.Base.Outcome.{Outcome, done, crash, exception, M}
use cpp_microservice_im.Redis.{command}
use cpp_microservice_im.User.Calls.Parts.{
  Op, known, mysql, es, sms, download, downloads, upload, ids, choose, get, set, set_for, del,
  Parts, one, chain, advance,
}
use cpp_microservice_im.Channel.{Channel, choose_service}
use cpp_microservice_im.File.{FileUploadData}
use cpp_microservice_im.User.Calls.{
  Call, registering, logging_in, asking_code, phone_registering, phone_logging_in, user_info,
  multi_user_info, avatar, nickname, description, phone_number,
}
use cpp_microservice_im.User.Env.{Env, World}
use cpp_microservice_im.Uuid.{uuid}

-- A property that the clients' operations keep, with how many of them there were: whatever the answers
-- of MySQL, the search engine and the SMS platform do to these, the calls of the file service, any text
-- set in redis under any key, and the removal of the keys that are `Removable`.
pub record Closed (E : Env) (Removable : Str → Type 0) (P : ℕ → World E → Type 0) : Type 0 where
  pub mono : (n : ℕ) (w : World E) → P n w → P (suc n) w
  pub mysql : (n : ℕ) (w : World E) (s : E.mysql.State) → P n w → P (suc n) (record w { mysql = s })
  pub es : (n : ℕ) (w : World E) (s : E.es.State) → P n w → P (suc n) (record w { es = s })
  pub sms : (n : ℕ) (w : World E) (s : E.sms.State) → P n w → P (suc n) (record w { sms = s })
  pub download :
      (n : ℕ) (w : World E) (c : Channel) (rid fid : Str)
      → P n w
      → P (suc n) (record w { files = (E.file.get_single_file c rid fid w.files).1 })
  pub downloads :
      (n : ℕ) (w : World E) (c : Channel) (rid : Str) (fids : List Str)
      → P n w
      → P (suc n) (record w { files = (E.file.get_multi_file c rid fids w.files).1 })
  pub upload :
      (n : ℕ) (w : World E) (c : Channel) (rid : Str) (file_data : FileUploadData)
      → P n w
      → P (suc n) (record w { files = (E.file.put_single_file c rid file_data w.files).1 })
  pub ids :
      (n : ℕ) (w : World E) → P n w → P (suc n) (record w { ids = (uuid E.distribution w.ids).1 })
  pub choose :
      (n : ℕ) (w : World E)
      → P n w
      → P (suc n) (record w { mm_channels = (choose_service E.file_service_name w.mm_channels).1 })
  pub set :
      (n : ℕ) (w : World E) (k v : Str) (t : E.redis.State)
      → E.redis.set k v w.redis ≡ some t
      → P n w
      → P (suc n) (record w { redis = t })
  pub set_for :
      (n : ℕ) (w : World E) (k v : Str) (ms : ℕ) (t : E.redis.State)
      → E.redis.set_for k v ms w.redis ≡ some t
      → P n w
      → P (suc n) (record w { redis = t })
  pub del :
      (n : ℕ) (w : World E) (k : Str) (t : E.redis.State)
      → Removable k
      → E.redis.del k w.redis ≡ some t
      → P n w
      → P (suc n) (record w { redis = t })

-- The keys that a call may remove.
abbrev pub Removes : (Str → Type 0) → Call → Type 0
Removes R (phone_logging_in r) = R r.verify_code_id
Removes R (registering r) = Unit
Removes R (logging_in r) = Unit
Removes R (asking_code r) = Unit
Removes R (phone_registering r) = Unit
Removes R (user_info rid uid) = Unit
Removes R (multi_user_info rid uids) = Unit
Removes R (avatar rid uid content) = Unit
Removes R (nickname rid uid name) = Unit
Removes R (description rid uid text) = Unit
Removes R (phone_number rid uid phone code code_id) = Unit

module _ (E : Env) (R : Str → Type 0) (P : ℕ → World E → Type 0) (C : Closed E R P) where
  -- A command that throws leaves redis as it was.
  command-Closed :
      (f : E.redis.State → Option E.redis.State) (n : ℕ) (w : World E)
      → ((t : E.redis.State) → f w.redis ≡ some t → P (suc n) (record w { redis = t }))
      → P n w
      → P (suc n) (record w { redis = (command E.redis f w.redis).1 })
  unfolding command
  command-Closed f n w k h = after (f w.redis) k (C.mono n w h)
    where
      after :
          (o : Option E.redis.State)
          → ((t : E.redis.State) → o ≡ some t → P (suc n) (record w { redis = t }))
          → P (suc n) w
          → P (suc n) (record w {
            redis =
                (elim o as (λ _. Outcome (Unit {0}) × E.redis.State) [
                  | none ↦ (crash exception, w.redis)
                  | some t ↦ (done tt, t)
                ]).1;
          })
      after none kt h = h
      after (some t) kt h = kt t refl

  Op-Closed :
      {A : Type 0} {m : M (World E) A}
      → Op E R A m
      → (n : ℕ) (w : World E) → P n w
      → P (suc n) (m w).1
  Op-Closed (known o) n w h = C.mono n w h
  Op-Closed (mysql f) n w h = C.mysql n w (f w.mysql).1 h
  Op-Closed (es f) n w h = C.es n w (f w.es).1 h
  Op-Closed (sms f) n w h = C.sms n w (f w.sms).1 h
  Op-Closed (download c rid fid) n w h = C.download n w c rid fid h
  Op-Closed (downloads c rid fids) n w h = C.downloads n w c rid fids h
  Op-Closed (upload c rid d) n w h = C.upload n w c rid d h
  Op-Closed ids n w h = C.ids n w h
  Op-Closed choose n w h = C.choose n w h
  Op-Closed (get m same) n w h =
      subst (λ s. P (suc n) (record w { redis = s })) (sym (same w.redis)) (C.mono n w h)
  Op-Closed (set k v) n w h = command-Closed (E.redis.set k v) n w (λ t e. C.set n w k v t e h) h
  Op-Closed (set_for k v ms) n w h =
      command-Closed (E.redis.set_for k v ms) n w (λ t e. C.set_for n w k v ms t e h) h
  Op-Closed (del k r) n w h = command-Closed (E.redis.del k) n w (λ t e. C.del n w k t r e h) h

  -- What the operations of the clients keep, the next operation of any thread keeps.
  pub advance-Closed :
      {A : Type 0} {m : M (World E) A} (p : Parts E R A m) (n : ℕ) (w : World E)
      → P n w
      → P (suc n) (advance E R p w).1
  unfolding advance
  advance-Closed (one op) n w h = Op-Closed op n w h
  advance-Closed (chain p k) n w h = advance-Closed p n w h
