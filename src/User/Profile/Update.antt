-- ===== src/User/Profile/Update.antt =====
-- How a setter stores a user.
use cpp_microservice_im.Base.{
  ◌≡◌, sym, ap, ◌∙◌, Str, String, true, none, some, arith, Option-cases, inl, inr, ◌⊎◌,
}
use cpp_microservice_im.Base.Outcome.{done, crash, null_value, M}
use cpp_microservice_im.EsUser.{append_data}
use cpp_microservice_im.Mysql
use cpp_microservice_im.Mysql.{User, select_by_id}
use cpp_microservice_im.User.Env.{Env, World}
use cpp_microservice_im.User.Register.{Answer}
use cpp_microservice_im.User.Profile.{store_user, with_user}

-- One of the texts that the search document takes is missing.
abbrev pub Incomplete : User → Type 0
Incomplete user =
    (user.nickname ≡ none)
    ⊎ ((user.phone ≡ none) ⊎ ((user.description ≡ none) ⊎ (user.avatar_id ≡ none)))

module _ (E : Env) where
  -- The user was stored in MySQL, and then in the search engine with all its texts. Redis is as it
  -- was.
  pub record Saved (user : User) (before : E.mysql.State) (w w' : World E) : Type 0 where
    pub nickname : Str
    pub phone : Str
    pub description : Str
    pub avatar_id : Str
    pub has_nickname : user.nickname ≡ some nickname
    pub has_phone : user.phone ≡ some phone
    pub has_description : user.description ≡ some description
    pub has_avatar_id : user.avatar_id ≡ some avatar_id
    pub updated : Mysql.update E.mysql user before ≡ (true, w'.mysql)
    pub indexed :
        append_data E.json E.es user.user_id nickname phone description avatar_id w.es
        ≡ (true, w'.es)
    pub redis_kept : w'.redis ≡ w.redis

  pub store_user_null :
      (rid : Str) (e e' : String) (user : User) (w : World E) (s : E.mysql.State)
      → Mysql.update E.mysql user w.mysql ≡ (true, s)
      → Incomplete user
      → ((store_user E rid e e' user w).0 ≡ crash null_value)
        × ((store_user E rid e e' user w).1.mysql ≡ s)
  unfolding store_user
  store_user_null rid e e' user w s stored n = ground arith

  pub store_user_success :
      (rid : Str) (e e' : String) (user : User) (w : World E) (rsp : Answer)
      → (store_user E rid e e' user w).0 ≡ done rsp
      → rsp.success ≡ true
      → Saved user w.mysql w (store_user E rid e e' user w).1
  unfolding store_user
  store_user_success rid e e' user w rsp h good = elim (Option-cases user.nickname) [
    | inl n ↦ absurd (ground arith)
    | inr (a, p) ↦ elim (Option-cases user.phone) [
      | inl n ↦ absurd (ground arith)
      | inr (b, q) ↦ elim (Option-cases user.description) [
        | inl n ↦ absurd (ground arith)
        | inr (c, r) ↦ elim (Option-cases user.avatar_id) [
          | inl n ↦ absurd (ground arith)
          | inr (d, t) ↦ record {
            nickname = a;
            phone = b;
            description = c;
            avatar_id = d;
            has_nickname = p;
            has_phone = q;
            has_description = r;
            has_avatar_id = t;
            updated = ground arith;
            indexed = ground arith;
            redis_kept = ground arith;
          }
        ]
      ]
    ]
  ]

  pub with_user_success :
      (rid uid : Str) (f : User → M (World E) Answer) (w : World E) (rsp : Answer)
      → (with_user E rid uid f w).0 ≡ done rsp
      → rsp.success ≡ true
      → (user : User) × ((select_by_id E.mysql uid w.mysql).0 ≡ some user)
        × (with_user E rid uid f w
            ≡ f user (record w { mysql = (select_by_id E.mysql uid w.mysql).1 }))
  unfolding with_user
  with_user_success rid uid f w rsp h good =
      elim (Option-cases (select_by_id E.mysql uid w.mysql).0) [
        | inl e ↦ absurd (ground arith)
        | inr (user, e) ↦ (user, e, ground arith)
      ]

  -- The user of that identifier was changed by `change`, and saved.
  abbrev pub Changed : Str → (User → User) → World E → World E → Type 0
  Changed uid change w w' =
      (user : User) × ((select_by_id E.mysql uid w.mysql).0 ≡ some user)
      × Saved (change user) (select_by_id E.mysql uid w.mysql).1 w w'

  pub with_user-store_user :
      (rid uid : Str) (e e' : String) (change : User → User) (w : World E) (rsp : Answer)
      → (with_user E rid uid (λ user. store_user E rid e e' (change user)) w).0 ≡ done rsp
      → rsp.success ≡ true
      → Changed uid change w (with_user E rid uid (λ user. store_user E rid e e' (change user)) w).1
  with_user-store_user rid uid e e' change w rsp h good =
      let (user, found, same) = with_user_success rid uid _ w rsp h good in
      let saved =
        store_user_success rid e e' (change user)
          (record w { mysql = (select_by_id E.mysql uid w.mysql).1 }) rsp
          (ap (λ x. x.0) (sym same) ∙ h) good in
      (
        user,
        found,
        record {
          nickname = saved.nickname;
          phone = saved.phone;
          description = saved.description;
          avatar_id = saved.avatar_id;
          has_nickname = saved.has_nickname;
          has_phone = saved.has_phone;
          has_description = saved.has_description;
          has_avatar_id = saved.has_avatar_id;
          updated = saved.updated ∙ ap (λ x. (true, x.1.mysql)) (sym same);
          indexed = saved.indexed ∙ ap (λ x. (true, x.1.es)) (sym same);
          redis_kept = ap (λ x. x.1.redis) same ∙ saved.redis_kept;
        },
      )
