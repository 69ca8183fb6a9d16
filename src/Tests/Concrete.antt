-- ===== src/Tests/Concrete.antt =====
-- A disk, a redis, a database, a search engine, a JSON library and an SMS platform that are lists.
use cpp_microservice_im.Base.{leb, ◌≤◌}
use cpp_microservice_im.Base.{
  eqb, Bool-cases, inl, inr, ℕ, suc, ◌≡◌, ◌≢◌, refl, ap, sym, ◌∙◌, Str, Bool, true, false, Option,
  none, some, List, [], ◌∷◌, ◌++◌, length, arith, if◌then◌else◌, ◌==◌,
}
use cpp_microservice_im.Base.Dict
use cpp_microservice_im.Base.Dict.{Dict}
use cpp_microservice_im.Dms.{Sms}
use cpp_microservice_im.Es.{Json, Client}
use cpp_microservice_im.Es.Laws.{IsLawful as IsLawfulJson}
use cpp_microservice_im.Proto.{success_response}
use cpp_microservice_im.File.{FileSystem}
use cpp_microservice_im.File.Laws.{Holds, Flushes, IsPlain}
use cpp_microservice_im.File.Laws
use cpp_microservice_im.Mysql.{Database, User, Query}
use cpp_microservice_im.Mysql.Laws.{answers, IsLawful as IsLawfulDatabase}
use cpp_microservice_im.Redis
use cpp_microservice_im.Redis.{Redis}
use cpp_microservice_im.User.Env.{FileStub, Env, World}
use mathlib.Core.Option.{some-injective}
use mathlib.Core.List.{append_cancel_left}

-- The greatest size of a text in the C++ library of GCC.
abbrev pub max_size : ℕ
max_size = 9223372036854775806

-- A file is its bytes under its path.
abbrev pub disk : FileSystem
disk = record {
  State = Dict Str;
  Stream = Str;
  mkdir = λ path s. s;
  open_in = Dict.lookup;
  size = length;
  max_size = max_size;
  read = λ stream n. some stream;
  open_out = λ path s. some (Dict.assign path [] s);
  write = λ path body s. (leb (length body) max_size, Dict.assign path body s);
  close = λ path s. (true, s);
}

pub other_lookup :
    (dir a b body : Str) (s : Dict Str)
    → a ≢ b
    → Dict.lookup (dir ++ b) (Dict.assign (dir ++ a) body s) ≡ Dict.lookup (dir ++ b) s
other_lookup dir a b body s n =
    let apart : dir ++ b ≢ dir ++ a = (λ e. n (append_cancel_left dir a b (sym e))) in
    ground (arith, Dict.lookup-assign (dir ++ b) (dir ++ a) body s)

pub same_lookup :
    (path body : Str) (s : Dict Str) → Dict.lookup path (Dict.assign path body s) ≡ some body
same_lookup path body s = ground (arith, Dict.lookup-assign path path body s)

pub fits : (body : Str) → leb (length body) max_size ≡ true → length body ≤ max_size
fits body h = ground arith

pub disk-IsLawful : Laws.IsLawful disk
disk-IsLawful = record {
  written = λ path body s t u v e f g. (
    body,
    ap (Dict.lookup path) (sym (ap (λ x. x.1) g) ∙ sym (ap (λ x. x.1) f)) ∙ same_lookup path body t,
    refl,
    fits body (ap (λ x. x.0) f),
    refl,
  );
  open_out_other = λ dir a b s t p q n e.
      ap (Dict.lookup (dir ++ b)) (sym (some-injective _ _ e)) ∙ other_lookup dir a b [] s n;
  write_other = λ dir a b body s p q n. other_lookup dir a b body s n;
  close_other = λ dir a b s p q n. refl;
}

pub disk-Flushes : Flushes disk
disk-Flushes path s = refl

abbrev pub store : Redis
store = record {
  State = Dict Str;
  set = λ k v s. some (Dict.assign k v s);
  set_for = λ k v ms s. some (Dict.assign k v s);
  del = λ k s. some (Dict.erase k s);
  get = λ k s. some (Dict.lookup k s);
}

unfoldable pub store-IsLawful : Redis.IsLawful store
store-IsLawful = record {
  content = λ s k. Dict.lookup k s;
  get-content = λ k s r e. sym (some-injective _ _ e);
  content-set =
      λ j k v s t e. ap (Dict.lookup j) (sym (some-injective _ _ e)) ∙ Dict.lookup-assign j k v s;
  content-set_for = λ j k v ms s t e.
      ap (Dict.lookup j) (sym (some-injective _ _ e)) ∙ Dict.lookup-assign j k v s;
  content-del =
      λ j k s t e. ap (Dict.lookup j) (sym (some-injective _ _ e)) ∙ Dict.lookup-erase j k s;
}

unfoldable pub first_user : Query → List User → Option User
first_user q [] = none
first_user q (user ∷ users) = if answers q user then some user else first_user q users

abbrev pub table : Database
table = record {
  State = List User;
  Transaction = List User;
  begin = λ s. some s;
  persist = λ user t. some (user ∷ t);
  update = λ user t. some (user ∷ t);
  query_one = λ q t. some (first_user q t);
  query = λ text t. some t;
  commit = λ t. some t;
}

first_user-answers :
    (q : Query) (users : List User) (user : User)
    → first_user q users ≡ some user
    → answers q user ≡ true
unfolding first_user
first_user-answers q [] user e = absurd (ground arith)
first_user-answers q (u ∷ users) user e = elim (Bool-cases (answers q u)) [
  | inl f ↦ ground arith
  | inr f ↦ first_user-answers q users user (ground arith)
]

pub table-IsLawful : IsLawfulDatabase table
unfolding first_user
table-IsLawful = record {
  find = first_user;
  find-answers = first_user-answers;
  query_one-find =
      λ q s t r e f. sym (some-injective _ _ f) ∙ ap (first_user q) (sym (some-injective _ _ e));
  find-persist = λ q user s s' t t' e f g. ground arith;
  find-update = λ user s s' t t' e f g. ground arith;
}

-- Values as they were built: a member that was set last is found first, and an element that was
-- appended last stands last.
pub data Doc : Type 0 where
  null : Doc
  text : Str → Doc
  flag : Bool → Doc
  field : Str → Doc → Doc → Doc
  item : Doc → Doc → Doc

unfoldable pub member : Str → Doc → Option Doc
member j null = none
member j (text s) = none
member j (flag b) = none
member j (field k x v) = if j == k then some x else member j v
member j (item v x) = none

unfoldable pub items : Doc → ℕ
items (item v x) = suc (items v)
items v = 0

unfoldable pub nth : ℕ → Doc → Option Doc
unfolding items
nth i (item v x) = if eqb i (items v) then some x else nth i v
nth i v = none

abbrev pub is_item : Doc → Bool
is_item (item v x) = true
is_item v = false

abbrev pub text_of : Doc → Option Str
text_of (text s) = some s
text_of v = none

-- JSON whose parser gives this document for every text.
abbrev pub documents_with : Doc → Json
documents_with answer = record {
  Value = Doc;
  null = null;
  string = text;
  bool = flag;
  set = field;
  at = member;
  append = item;
  elem = nth;
  empty = λ v. eqb (items v) 0;
  is_array = is_item;
  size = items;
  as_string = text_of;
  write = λ v. some [];
  parse = λ s. (true, answer);
}

abbrev pub documents : Json
documents = documents_with null

pub documents-IsLawful : (answer : Doc) → IsLawfulJson (documents_with answer)
unfolding member items nth
documents-IsLawful answer = record {
  at-set = λ j k x v. refl;
  size_null = refl;
  size-append = λ v x. refl;
  elem_last = λ v x. ground arith;
  elem-append = λ i v x h. ground arith;
  empty-append = λ v x. ground arith;
  null_array = refl;
  bool_array = λ b. refl;
}

-- A search engine that counts the documents.
abbrev pub engine : Client
engine = record {
  State = ℕ;
  index = λ index type id body s. (some 201, suc s);
  remove = λ index type id s. (some 200, s);
  search = λ index type body s. (some (200, []), s);
}

abbrev pub platform : Sms
platform = record {
  State = Unit {0};
  send_sms_verify_code =
      λ request s. (some (record { success = true; verify_code = some (b'4' ∷ b'2' ∷ []) }), s);
}

-- A file service that has one file.
abbrev pub stub : FileStub
stub = record {
  State = Unit {0};
  get_single_file = λ c rid id s.
      (some (success_response rid (some (record { file_id = id; file_content = b'x' ∷ [] }))), s);
  get_multi_file = λ c rid ids s. (
    some (success_response rid (([], record { file_id = []; file_content = b'x' ∷ [] }) ∷ [])),
    s,
  );
  put_single_file = λ c rid file_data s. (
    some (
        success_response rid (
          some (record {
            file_id = b'i' ∷ [];
            file_size = file_data.file_size;
            file_name = file_data.file_name;
          }))),
    s,
  );
}

abbrev pub environment : Env
environment = record {
  json = documents;
  es = engine;
  mysql = table;
  redis = store;
  sms = platform;
  file = stub;
  distribution = λ n. n;
  file_service_name = [];
}

abbrev pub world : List User → Dict Str → World environment
world users values = record {
  es = 0;
  mysql = users;
  redis = values;
  sms = tt;
  files = tt;
  mm_channels = record {
    follow_services = [] ∷ [];
    services =
        (
          [],
          record {
            index = 0;
            servicename = [];
            channels = record { address = 0; host = [] } ∷ [];
            hosts = [];
          },
        )
        ∷ [];
    next = 1;
  };
  ids = record { drawn = 0; idx = 0 };
}
