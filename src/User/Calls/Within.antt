-- ===== src/User/Calls/Within.antt =====
-- The faults with which a part of a call can break off.
use cpp_microservice_im.Base.{
  ◌≡◌, Str, Bool, true, false, arith, Option, none, some, if◌then◌else◌, Option-cases, inl, inr,
}
use cpp_microservice_im.Base.Outcome.{
  Outcome, done, crash, Fault, exception, null_pointer, null_value, M, pure, fail, ◌>>=◌,
}
use cpp_microservice_im.Proto.{Reply}
use cpp_microservice_im.Redis.{
  command, get_value, session_append, status_append, status_exists, codes_append, codes_code,
  codes_remove,
}
use cpp_microservice_im.User.Check.{phone_check}
use cpp_microservice_im.User.Check.Accepted.{phone_check_lem}
use cpp_microservice_im.User.Env.{
  Env, World, on_mysql, on_es, on_sms, on_files, on_redis, fresh_uuid, choose_file_channel,
  value_of, pointee,
}
use cpp_microservice_im.User.Profile.{payload_of}

-- A call that breaks off at most with the faults of `ok`.
pub record Within {S A : Type 0} (ok : Fault → Bool) (m : M S A) : Type 0 where
  pub at : (s : S) (e : Fault) → (m s).0 ≡ crash e → ok e ≡ true

module _ {S A : Type 0} {ok : Fault → Bool} where
  pub Within-pure : (a : A) → Within {S = S} ok (pure a)
  Within-pure a = record { at = λ s e h. absurd (ground arith) }

  pub Within-fail : (f : Fault) → ok f ≡ true → Within {S = S} ok (fail {A = A} f)
  Within-fail f k = record { at = λ s e h. ground arith }

  pub Within-if :
      (b : Bool) (m n : M S A) → Within ok m → Within ok n → Within ok (if b then m else n)
  Within-if true m n km kn = km
  Within-if false m n km kn = kn

  pub Within-option :
      {B : Type 0} (o : Option B) (m : M S A) (f : B → M S A)
      → Within ok m
      → ((b : B) → Within ok (f b))
      → Within ok (elim o [ none ↦ m | some b ↦ f b ])
  Within-option none m f km kf = km
  Within-option (some b) m f km kf = kf b

  pub Within-value : (o : Option A) → ok null_value ≡ true → Within {S = S} ok (value_of o)
  Within-value none k = Within-fail null_value k
  Within-value (some a) k = Within-pure a

  pub Within-pointee : (o : Option A) → ok null_pointer ≡ true → Within {S = S} ok (pointee o)
  Within-pointee none k = Within-fail null_pointer k
  Within-pointee (some a) k = Within-pure a

module _ {S A B : Type 0} {ok : Fault → Bool} where
  bind_rest :
      (x : Outcome A × S) (f : A → M S B) (e : Fault)
      → ((e : Fault) → x.0 ≡ crash e → ok e ≡ true)
      → ((a : A) → Within ok (f a))
      → (elim x.0 as (λ _. Outcome B × S) [ done a ↦ f a x.1 | crash e ↦ (crash e, x.1) ]).0
        ≡ crash e
      → ok e ≡ true
  bind_rest (done a, s) f e k kf h = (kf a).at s e h
  bind_rest (crash d, s) f e k kf h = k e (ground arith)

  pub Within-bind :
      (m : M S A) (f : A → M S B) → Within ok m → ((a : A) → Within ok (f a)) → Within ok (m >>= f)
  Within-bind m f km kf = record { at = λ s e h. bind_rest (m s) f e (km.at s) kf h }

module _ {S A B : Type 0} {ok : Fault → Bool} where
  pub Within-found :
      (m : M S (Option A)) (n : M S B) (f : A → M S B)
      → Within ok m
      → Within ok n
      → ((a : A) → Within ok (f a))
      → Within ok (m >>= λ o. elim o [ none ↦ n | some a ↦ f a ])
  Within-found m n f km kn kf = Within-bind m _ km λ o. Within-option o n f kn kf

-- Each operation of a client, with the fault that it may bring.
module _ (E : Env) (ok : Fault → Bool) where
  abbrev pub Breaks : {A : Type 0} → M (World E) A → Type 0
  Breaks m = Within ok m

  pub sql : {A : Type 0} (f : E.mysql.State → A × E.mysql.State) → Breaks (on_mysql E f)
  sql f = record { at = λ s e h. absurd (ground arith) }

  pub engine : {A : Type 0} (f : E.es.State → A × E.es.State) → Breaks (on_es E f)
  engine f = record { at = λ s e h. absurd (ground arith) }

  pub messages : {A : Type 0} (f : E.sms.State → A × E.sms.State) → Breaks (on_sms E f)
  messages f = record { at = λ s e h. absurd (ground arith) }

  pub stub : {A : Type 0} (f : E.file.State → A × E.file.State) → Breaks (on_files E f)
  stub f = record { at = λ s e h. absurd (ground arith) }

  pub fresh : Breaks (fresh_uuid E)
  fresh = record { at = λ s e h. absurd (ground arith) }

  pub choosing : Breaks (choose_file_channel E)
  choosing = record { at = λ s e h. absurd (ground arith) }

  pub checked : (phone : Str) → Breaks (λ w. (phone_check phone, w))
  checked phone = record { at = λ s e h. absurd (ground (arith, phone_check_lem phone)) }

  commanded :
      (f : E.redis.State → Option E.redis.State)
      → ok exception ≡ true
      → Breaks (on_redis E (command E.redis f))
  unfolding command
  commanded f k = record {
    at = λ s e h. elim (Option-cases (f s.redis)) [
      | inl n ↦ ground arith
      | inr (t, y) ↦ ground arith
    ];
  }

  reading : (k : Str) → ok exception ≡ true → Breaks (on_redis E (get_value E.redis k))
  unfolding get_value
  reading key k = record {
    at = λ s e h. elim (Option-cases (E.redis.get key s.redis)) [
      | inl n ↦ ground arith
      | inr (t, y) ↦ ground arith
    ];
  }

  pub exists : (uid : Str) → ok exception ≡ true → Breaks (on_redis E (status_exists E.redis uid))
  unfolding status_exists get_value
  exists uid k = record {
    at = λ s e h. elim (Option-cases (E.redis.get uid s.redis)) [
      | inl n ↦ ground arith
      | inr (t, y) ↦ ground arith
    ];
  }

  pub code : (cid : Str) → ok exception ≡ true → Breaks (on_redis E (codes_code E.redis cid))
  unfolding codes_code
  code cid k = reading cid k

  pub session :
      (ssid uid : Str) → ok exception ≡ true → Breaks (on_redis E (session_append E.redis ssid uid))
  unfolding session_append
  session ssid uid k = commanded _ k

  pub mark : (uid : Str) → ok exception ≡ true → Breaks (on_redis E (status_append E.redis uid))
  unfolding status_append
  mark uid k = commanded _ k

  pub new_code :
      (cid text : Str) → ok exception ≡ true → Breaks (on_redis E (codes_append E.redis cid text))
  unfolding codes_append
  new_code cid text k = commanded _ k

  pub spent_code :
      (cid : Str) → ok exception ≡ true → Breaks (on_redis E (codes_remove E.redis cid))
  unfolding codes_remove
  spent_code cid k = commanded _ k

  pub asking :
      {A B : Type 0} (f : E.file.State → Option (Reply A) × E.file.State) (n : M (World E) B)
      (k : A → M (World E) B)
      → Breaks n
      → ((a : A) → Breaks (k a))
      → Breaks (on_files E f >>= λ answer. elim (payload_of answer) [ none ↦ n | some a ↦ k a ])
  asking f n k kn kk =
      Within-bind _ _ (stub f) λ answer. Within-option (payload_of answer) n k kn kk

  pub ruleset fault_rules = (
    Within-pure, Within-if, Within-option, Within-found, Within-bind, Within-value, Within-pointee,
    sql, engine, messages, stub, fresh, choosing, checked, exists, code, session, mark, new_code,
    spent_code, asking,
  )
