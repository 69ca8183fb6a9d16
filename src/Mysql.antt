-- ===== src/Mysql.antt =====
-- code/server/odb/user.hxx: `User`; code/server/common/data_mysql.hpp: `UserTable`. ODB and the MySQL
-- server are a parameter. The column `_id`, which only ODB reads and writes, is left out.
pub mod Sql
pub mod Laws
use cpp_microservice_im.Base.{
  ℕ, ◌≡◌, Str, Bool, true, false, Option, none, some, List, [], ◌∷◌, ◌++◌, utf8,
}

pub record User : Type 0 where
  pub user_id : Str
  pub nickname : Option Str
  pub description : Option Str
  pub password : Option Str
  pub phone : Option Str
  pub avatar_id : Option Str

-- `User(uid, nickname, password)`
unfoldable pub user_by_nickname : Str → Str → Str → User
user_by_nickname uid nickname password = record {
  user_id = uid;
  nickname = some nickname;
  description = none;
  password = some password;
  phone = none;
  avatar_id = none;
}

-- `User(uid, phone)`: the nickname is the identifier.
unfoldable pub user_by_phone : Str → Str → User
user_by_phone uid phone = record {
  user_id = uid;
  nickname = some uid;
  description = none;
  password = none;
  phone = some phone;
  avatar_id = none;
}

-- `ODBFactory::create`: what a database is made with, and the bounds of its connection pool.
pub record DatabaseOptions : Type 0 where
  pub user : Str
  pub passwd : Str
  pub db : Str
  pub host : Str
  pub port : ℕ
  pub socket : Str
  pub charset : Str
  pub client_flags : ℕ
  pub max_connections : ℕ
  pub min_connections : ℕ

unfoldable pub odb_create : Str → Str → Str → Str → Str → ℕ → ℕ → DatabaseOptions
odb_create user pswd host db cset port conn_pool_count = record {
  user = user;
  passwd = pswd;
  db = db;
  host = host;
  port = port;
  socket = [];
  charset = cset;
  client_flags = 0;
  max_connections = conn_pool_count;
  min_connections = 0;
}

-- The conditions of the three queries for one user.
pub data Query : Type 0 where
  nickname_is phone_is user_id_is : Str → Query

-- `none` is an exception. A transaction that is not committed leaves the database as it was.
pub record Database : Type 1 where
  pub State : Type 0
  pub Transaction : Type 0
  pub begin : State → Option Transaction
  pub persist : User → Transaction → Option Transaction
  pub update : User → Transaction → Option Transaction
  pub query_one : Query → Transaction → Option (Option User)
  pub query : Str → Transaction → Option (List User)
  pub commit : Transaction → Option State

module _ (D : Database) where
  -- A transaction with one change; every exception is caught and reported as false.
  unfoldable pub transact : (D.Transaction → Option D.Transaction) → D.State → Bool × D.State
  transact change s = elim (D.begin s) [
    | none ↦ (false, s)
    | some trans ↦ elim (change trans) [
      | none ↦ (false, s)
      | some trans' ↦ elim (D.commit trans') [ none ↦ (false, s) | some s' ↦ (true, s') ]
    ]
  ]

  -- A transaction that reads; the result stands also where only the commit throws.
  unfoldable pub read_with {ℓ} :
      {A : Type ℓ} → A → (D.Transaction → Option A) → D.State → A × D.State
  read_with default fetch s = elim (D.begin s) [
    | none ↦ (default, s)
    | some trans ↦ elim (fetch trans) [
      | none ↦ (default, s)
      | some a ↦ elim (D.commit trans) [ none ↦ (a, s) | some s' ↦ (a, s') ]
    ]
  ]

-- "'id'," for each identifier.
pub quoted : List Str → Str
quoted [] = []
quoted (id ∷ ids) = b'\'' ∷ (id ++ (b'\'' ∷ b',' ∷ quoted ids))

-- `std::string::pop_back`, on a text that is not empty.
pub pop_back : Str → Str
pop_back [] = []
pop_back (c ∷ []) = []
pop_back (c ∷ d ∷ s) = c ∷ pop_back (d ∷ s)

pub condition : List Str → Str
unfolding quoted pop_back
condition id_list = pop_back (utf8 "user_id in (" ++ quoted id_list) ++ (b')' ∷ [])

module _ (D : Database) where
  unfoldable pub insert : User → D.State → Bool × D.State
  unfolding transact
  insert user = transact D (D.persist user)

  unfoldable pub update : User → D.State → Bool × D.State
  unfolding transact
  update user = transact D (D.update user)

  unfoldable pub select_by_nickname : Str → D.State → Option User × D.State
  unfolding read_with
  select_by_nickname nickname = read_with D none (D.query_one (nickname_is nickname))

  unfoldable pub select_by_phone : Str → D.State → Option User × D.State
  unfolding read_with
  select_by_phone phone = read_with D none (D.query_one (phone_is phone))

  unfoldable pub select_by_id : Str → D.State → Option User × D.State
  unfolding read_with
  select_by_id user_id = read_with D none (D.query_one (user_id_is user_id))

  unfoldable pub select_multi_users : List Str → D.State → List User × D.State
  unfolding read_with
  select_multi_users id_list = read_with D [] (D.query (condition id_list))
