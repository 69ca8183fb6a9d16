-- ===== src/User/Calls/Operations.antt =====
-- One part of a call for each operation of the clients.
use cpp_microservice_im.Base.{
  Bool, true, false, if◌then◌else◌, Str, arith, Option-cases, inl, inr, Option, none, some, List,
  [],
}
use cpp_microservice_im.Base.Outcome.{pure, fail, Outcome, done, crash, Fault, M, ◌>>=◌}
use cpp_microservice_im.Channel.{Channel}
use cpp_microservice_im.File.{FileUploadData}
use cpp_microservice_im.Redis.{
  get_value, session_append, status_append, status_exists, codes_append, codes_code, codes_remove,
  code_ttl,
}
use cpp_microservice_im.User.Env.{
  Env, World, on_mysql, on_es, on_sms, on_files, on_redis, fresh_uuid, choose_file_channel,
  value_of, pointee,
}
use cpp_microservice_im.User.Calls.Parts.{
  known, mysql, es, sms, download, downloads, upload, ids, choose, get, set, set_for, del, Parts,
  one, chain,
}

module _ (E : Env) (R : Str → Type 0) where
  abbrev pub Made : {A : Type 0} → M (World E) A → Type 1
  Made {A} m = Parts E R A m

  pub answer : {A : Type 0} (a : A) → Made (pure a)
  answer a = one (known (done a))

  pub stop : {A : Type 0} (e : Fault) → Made (fail {A = A} e)
  stop e = one (known (crash e))

  pub checking : {A : Type 0} (o : Outcome A) → Made (λ w. (o, w))
  checking o = one (known o)

  pub value : {A : Type 0} (o : Option A) → Made (value_of o)
  value none = stop _
  value (some a) = answer a

  pub pointer : {A : Type 0} (o : Option A) → Made (pointee o)
  pointer none = stop _
  pointer (some a) = answer a

  pub test :
      {A : Type 0} (b : Bool) (m n : M (World E) A) → Made m → Made n → Made (if b then m else n)
  test true m n pm pn = pm
  test false m n pm pn = pn

  pub choice :
      {A B : Type 0} (o : Option B) (m : M (World E) A) (f : B → M (World E) A)
      → Made m
      → ((b : B) → Made (f b))
      → Made (elim o [ none ↦ m | some b ↦ f b ])
  choice none m f pm pf = pm
  choice (some b) m f pm pf = pf b

  -- One operation, and what is done with its result.
  pub then_do :
      {A B : Type 0} (m : M (World E) A) (f : A → M (World E) B)
      → Made m
      → ((a : A) → Made (f a))
      → Made (m >>= f)
  then_do m f pm pf = chain pm pf

  -- A lookup, and what is done with what it finds.
  pub lookup :
      {A B : Type 0} (m : M (World E) (Option A)) (n : M (World E) B) (f : A → M (World E) B)
      → Made m
      → Made n
      → ((a : A) → Made (f a))
      → Made (m >>= λ o. elim o [ none ↦ n | some a ↦ f a ])
  lookup m n f pm pn pf = chain pm λ o. choice o n f pn pf

  pub sql : {A : Type 0} (f : E.mysql.State → A × E.mysql.State) → Made (on_mysql E f)
  sql f = one (mysql f)

  pub engine : {A : Type 0} (f : E.es.State → A × E.es.State) → Made (on_es E f)
  engine f = one (es f)

  pub messages : {A : Type 0} (f : E.sms.State → A × E.sms.State) → Made (on_sms E f)
  messages f = one (sms f)

  pub downloading :
      (c : Channel) (rid fid : Str) → Made (on_files E (E.file.get_single_file c rid fid))
  downloading c rid fid = one (download c rid fid)

  pub downloading_all :
      (c : Channel) (rid : Str) (fids : List Str)
      → Made (on_files E (E.file.get_multi_file c rid fids))
  downloading_all c rid fids = one (downloads c rid fids)

  pub uploading :
      (c : Channel) (rid : Str) (file_data : FileUploadData)
      → Made (on_files E (E.file.put_single_file c rid file_data))
  uploading c rid file_data = one (upload c rid file_data)

  pub fresh : Made (fresh_uuid E)
  fresh = one ids

  pub choosing : Made (choose_file_channel E)
  choosing = one choose

  pub code : (cid : Str) → Made (on_redis E (codes_code E.redis cid))
  unfolding codes_code get_value
  code cid = one (
      get (codes_code E.redis cid) λ s. elim (Option-cases (E.redis.get cid s)) [
        | inl e ↦ ground arith
        | inr (r, e) ↦ ground arith
      ])

  pub exists : (uid : Str) → Made (on_redis E (status_exists E.redis uid))
  unfolding status_exists get_value
  exists uid = one (
      get (status_exists E.redis uid) λ s. elim (Option-cases (E.redis.get uid s)) [
        | inl e ↦ ground arith
        | inr (r, e) ↦ ground arith
      ])

  pub session : (ssid uid : Str) → Made (on_redis E (session_append E.redis ssid uid))
  unfolding session_append
  session ssid uid = one (set ssid uid)

  pub mark : (uid : Str) → Made (on_redis E (status_append E.redis uid))
  unfolding status_append
  mark uid = one (set uid [])

  pub new_code : (cid text : Str) → Made (on_redis E (codes_append E.redis cid text))
  unfolding codes_append
  new_code cid text = one (set_for cid text (code_ttl E.redis))

  pub spent_code : (cid : Str) → R cid → Made (on_redis E (codes_remove E.redis cid))
  unfolding codes_remove
  spent_code cid r = one (del cid r)

  pub ruleset client_rules = (
    answer, stop, test, choice, lookup, then_do, sql, engine, messages, downloading,
    downloading_all, uploading, fresh, choosing, checking, value, pointer, exists, code, session,
    mark, new_code,
  )
