-- ===== src/User/Calls/Parts.antt =====
-- What a call is made of: operations of its clients, one after the other, between which the thread of
-- another call may run.
use cpp_microservice_im.Base.{ℕ, ◌≡◌, Str, List}
use cpp_microservice_im.Base.Outcome.{Outcome, done, crash, M, ◌>>=◌}
use cpp_microservice_im.Channel.{Channel}
use cpp_microservice_im.File.{FileUploadData}
use cpp_microservice_im.Redis.{command}
use cpp_microservice_im.User.Env.{
  Env, World, on_mysql, on_es, on_sms, on_files, on_redis, fresh_uuid, choose_file_channel,
}

module _ (E : Env) (R : Str → Type 0) where
  -- One operation of one client, which no other thread sees in part, or none at all. `R` says which keys
  -- of redis may be removed.
  pub data Op : (A : Type 0) → M (World E) A → Type 1 where
    known : {A : Type 0} (o : Outcome A) → Op A (λ w. (o, w))
    mysql : {A : Type 0} (f : E.mysql.State → A × E.mysql.State) → Op A (on_mysql E f)
    es : {A : Type 0} (f : E.es.State → A × E.es.State) → Op A (on_es E f)
    sms : {A : Type 0} (f : E.sms.State → A × E.sms.State) → Op A (on_sms E f)
    download : (c : Channel) (rid fid : Str) → Op _ (on_files E (E.file.get_single_file c rid fid))
    downloads :
        (c : Channel) (rid : Str) (fids : List Str)
        → Op _ (on_files E (E.file.get_multi_file c rid fids))
    upload :
        (c : Channel) (rid : Str) (file_data : FileUploadData)
        → Op _ (on_files E (E.file.put_single_file c rid file_data))
    ids : Op Str (fresh_uuid E)
    choose : Op _ (choose_file_channel E)
    get :
        {A : Type 0} (m : M E.redis.State A)
        → ((s : E.redis.State) → (m s).1 ≡ s)
        → Op A (on_redis E m)
    set : (k v : Str) → Op _ (on_redis E (command E.redis (E.redis.set k v)))
    set_for : (k v : Str) (ms : ℕ) → Op _ (on_redis E (command E.redis (E.redis.set_for k v ms)))
    del : (k : Str) → R k → Op _ (on_redis E (command E.redis (E.redis.del k)))

  pub data Parts : (A : Type 0) → M (World E) A → Type 1 where
    one : {A : Type 0} {m : M (World E) A} → Op A m → Parts A m
    chain :
        {A B : Type 0} {m : M (World E) A} {f : A → M (World E) B}
        → Parts A m
        → ((a : A) → Parts B (f a))
        → Parts B (m >>= f)

  -- A thread is over, or has parts left.
  pub data Rest (A : Type 0) : Type 1 where
    over : Outcome A → Rest A
    left : {m : M (World E) A} → Parts A m → Rest A

  abbrev pub then_parts :
      {A B : Type 0} {f : A → M (World E) B} → Rest A → ((a : A) → Parts B (f a)) → Rest B
  then_parts (over (done a)) k = left (k a)
  then_parts (over (crash e)) k = over (crash e)
  then_parts (left p) k = left (chain p k)

  -- The next operation.
  unfoldable pub advance : {A : Type 0} {m : M (World E) A} → Parts A m → World E → Rest A × World E
  advance (one {A} {m} op) w = (over (m w).0, (m w).1)
  advance (chain p k) w = let (r, w') = advance p w in (then_parts r k, w')

  -- A thread that runs alone.
  pub data Alone {A : Type 0} : Rest A → World E → Outcome A × World E → Type 1 where
    ends : (o : Outcome A) (w : World E) → Alone (over o) w (o, w)
    goes :
        {m : M (World E) A} (p : Parts A m) (w : World E) (x : Outcome A × World E)
        → Alone (advance p w).0 (advance p w).1 x
        → Alone (left p) w x

  Alone-chain :
      {A B : Type 0} {f : A → M (World E) B} (k : (a : A) → Parts B (f a)) (r : Rest A)
      (w : World E) (x : Outcome A × World E) (y : Outcome B × World E)
      → Alone r w x
      → Alone (then_parts (over x.0) k) x.1 y
      → Alone (then_parts r k) w y
  unfolding advance
  Alone-chain k _ _ _ y (ends o w) h = h
  Alone-chain k _ _ _ y (goes p w x g) h = goes (chain p k) w y (Alone-chain k _ _ x y g h)

  Alone-rest :
      {A B : Type 0} {f : A → M (World E) B} (k : (a : A) → Parts B (f a)) (x : Outcome A × World E)
      → ((a : A) (w : World E) → Alone (left (k a)) w (f a w))
      → Alone
          (then_parts (over x.0) k)
          x.1
          (elim x.0 as (λ _. Outcome B × World E) [ done a ↦ f a x.1 | crash e ↦ (crash e, x.1) ])
  Alone-rest k (done a, w) h = h a w
  Alone-rest k (crash e, w) h = ends (crash e) w

  -- Alone, the parts of a call come to an end, with the outcome and the state of the call.
  pub Parts-Alone :
      {A : Type 0} {m : M (World E) A} (p : Parts A m) (w : World E) → Alone (left p) w (m w)
  unfolding advance
  Parts-Alone (one {A} {m} op) w = goes (one op) w (m w) (ends (m w).0 (m w).1)
  Parts-Alone (chain {A} {B} {m} {f} p k) w =
      Alone-chain k (left p) w (m w) _ (Parts-Alone p w)
        (Alone-rest k (m w) λ a w'. Parts-Alone (k a) w')
