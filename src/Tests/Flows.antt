-- ===== src/Tests/Flows.antt =====
-- A registration with a login.
use cpp_microservice_im.Base.{
  ◌≡◌, refl, sym, ap, ◌∙◌, Str, true, some, [], ◌∷◌, Str-discrete, ℕ_discrete,
}
use cpp_microservice_im.Base.Dict
use cpp_microservice_im.Base.Outcome.{done}
use cpp_microservice_im.Mysql.{
  User, insert, select_by_nickname, user_by_nickname, transact, read_with,
}
use cpp_microservice_im.Proto.{success_response}
use cpp_microservice_im.Tests.Accounts.{
  rid, anna, secret, registration, nobody, short, strong, unknown,
}
use cpp_microservice_im.Tests.Concrete.{environment, table, table-IsLawful, first_user}
use cpp_microservice_im.User.Env.{World}
use cpp_microservice_im.User.Flows.Registration.{Ready, user_register-user_login}
use cpp_microservice_im.User.Login.{user_login}
use cpp_microservice_im.User.Register.{user_error, user_register}
use cpp_microservice_im.User.Register.Failure.{user_register_stores}
use cpp_microservice_im.Uuid.{uuid}

abbrev new : User
new = user_by_nickname (uuid environment.distribution nobody.ids).0 anna secret

abbrev registered : World environment
registered = record nobody { mysql = new ∷ []; ids = (uuid environment.distribution nobody.ids).1 }

abbrev session : Str
session = (uuid environment.distribution registered.ids).0

inserted : insert table new [] ≡ (true, new ∷ [])
unfolding insert transact
inserted = refl

kept : registered.mysql ≡ (user_register environment registration nobody).1.mysql
kept = sym (
    ap (λ x. x.1.mysql)
      (user_register_stores environment registration nobody [] short strong unknown)
    ∙ ap (λ x. x.1) inserted)

found_new : (select_by_nickname table anna (new ∷ [])).0 ≡ some new
unfolding select_by_nickname user_by_nickname read_with transact first_user Str-discrete ℕ_discrete
found_new = refl

ready : Ready environment table-IsLawful new.user_id session []
unfolding Dict.lookup user_by_nickname
ready = record {
  opened = Dict.assign session new.user_id [];
  marked = Dict.assign new.user_id [] (Dict.assign session new.user_id []);
  unmarked = refl;
  stores_session = refl;
  stores_mark = refl;
}

user_register-user_login_example :
    ((user_register environment registration nobody).0 ≡ done (user_error rid "MySQL数据库新增数据失败! "))
    × ((user_login environment
          (record { request_id = rid; nickname = anna; password = secret })
          registered).0
        ≡ done (success_response rid session))
unfolding user_by_nickname
user_register-user_login_example =
    user_register-user_login environment table-IsLawful registration nobody registered [] (new ∷ [])
      rid new short strong unknown inserted kept found_new ready
