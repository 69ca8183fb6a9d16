-- ===== src/Mysql/Laws.antt =====
-- What `UserTable` relies on of the database, and what its changes and queries then do.
use cpp_microservice_im.Base.{
  ◌≡◌, Str, Bool, true, false, Option, none, some, arith, if◌then◌else◌, ◌==◌, Option-cases, inl,
  inr,
}
use cpp_microservice_im.Mysql.{
  User, Query, nickname_is, phone_is, user_id_is, Database, transact, read_with, insert, update,
  select_by_nickname, select_by_id,
}

-- Whether a user is the one that a query asks for; a field that is not set is none that is asked for.
abbrev pub has : Option Str → Str → Bool
has none s = false
has (some t) s = t == s

abbrev pub answers : Query → User → Bool
answers (nickname_is s) user = has user.nickname s
answers (phone_is s) user = has user.phone s
answers (user_id_is s) user = user.user_id == s

-- A database has an answer to each query for one user, a user of the kind that is asked for or none.
-- Within a transaction a query that does not throw gives it. A user who was persisted is the answer to
-- the queries that ask for such a user, and leaves the answers to the others. A user who was updated is
-- the answer to the query for the identifier.
pub record IsLawful (D : Database) : Type 0 where
  pub find : Query → D.State → Option User
  pub find-answers :
      (q : Query) (s : D.State) (user : User) → find q s ≡ some user → answers q user ≡ true
  pub query_one-find :
      (q : Query) (s : D.State) (t : D.Transaction) (r : Option User)
      → D.begin s ≡ some t
      → D.query_one q t ≡ some r
      → r ≡ find q s
  pub find-persist :
      (q : Query) (user : User) (s s' : D.State) (t t' : D.Transaction)
      → D.begin s ≡ some t
      → D.persist user t ≡ some t'
      → D.commit t' ≡ some s'
      → find q s' ≡ (if answers q user then some user else find q s)
  pub find-update :
      (user : User) (s s' : D.State) (t t' : D.Transaction)
      → D.begin s ≡ some t
      → D.update user t ≡ some t'
      → D.commit t' ≡ some s'
      → find (user_id_is user.user_id) s' ≡ some user

module _ (D : Database) (L : IsLawful D) where
  pub find-insert :
      (q : Query) (user : User) (s : D.State)
      → (insert D user s).0 ≡ true
      → L.find q (insert D user s).1 ≡ (if answers q user then some user else L.find q s)
  unfolding insert transact
  find-insert q user s h = elim (Option-cases (D.begin s)) [
    | inl e ↦ absurd (ground arith)
    | inr (t, e) ↦ elim (Option-cases (D.persist user t)) [
      | inl f ↦ absurd (ground arith)
      | inr (t', f) ↦ elim (Option-cases (D.commit t')) [
        | inl g ↦ absurd (ground arith)
        | inr (s', g) ↦ ground (arith, L.find-persist q user s s' t t' e f g)
      ]
    ]
  ]

  pub find-updated :
      (user : User) (s : D.State)
      → (update D user s).0 ≡ true
      → L.find (user_id_is user.user_id) (update D user s).1 ≡ some user
  unfolding update transact
  find-updated user s h = elim (Option-cases (D.begin s)) [
    | inl e ↦ absurd (ground arith)
    | inr (t, e) ↦ elim (Option-cases (D.update user t)) [
      | inl f ↦ absurd (ground arith)
      | inr (t', f) ↦ elim (Option-cases (D.commit t')) [
        | inl g ↦ absurd (ground arith)
        | inr (s', g) ↦ ground (arith, L.find-update user s s' t t' e f g)
      ]
    ]
  ]

  -- A query for one user: an answer with a user is the right one.
  read_one :
      (q : Query) (s : D.State) (user : User)
      → (read_with D none (D.query_one q) s).0 ≡ some user
      → L.find q s ≡ some user
  unfolding read_with
  read_one q s user h = elim (Option-cases (D.begin s)) [
    | inl e ↦ absurd (ground arith)
    | inr (t, e) ↦ elim (Option-cases (D.query_one q t)) [
      | inl f ↦ absurd (ground arith)
      | inr (r, f) ↦ ground (arith, L.query_one-find q s t r e f)
    ]
  ]

  pub find-select_by_nickname :
      (nickname : Str) (s : D.State) (user : User)
      → (select_by_nickname D nickname s).0 ≡ some user
      → L.find (nickname_is nickname) s ≡ some user
  unfolding select_by_nickname
  find-select_by_nickname nickname s user h = read_one (nickname_is nickname) s user h

  pub find-select_by_id :
      (user_id : Str) (s : D.State) (user : User)
      → (select_by_id D user_id s).0 ≡ some user
      → L.find (user_id_is user_id) s ≡ some user
  unfolding select_by_id
  find-select_by_id user_id s user h = read_one (user_id_is user_id) s user h
