-- ===== src/Etcd.antt =====
-- code/server/common/etcd.hpp: `Discovery`, which hands what etcd lists and watches to two
-- callbacks, and `Registry`, which puts one key under a lease.
-- The answers of `etcd::Client` and of the watcher are values. A callback acts on the state of its
-- owner; an empty `std::function` is `none`.
pub mod Refine
pub mod Listed
pub mod Threads
pub mod Gap
use cpp_microservice_im.Base.{
  ℕ, Str, Bool, true, false, Option, none, some, List, [], ◌∷◌, if◌then◌else◌,
}

pub record KeyValue : Type 0 where
  pub key : Str
  pub value : Str

-- `other` is an event type that is neither PUT nor DELETE_.
pub data Event : Type 0 where
  put : KeyValue → Event
  delete : KeyValue → Event
  other : Event

-- The answer to `ls`, and the notice of the watcher.
pub record Listing : Type 0 where
  pub is_ok : Bool
  pub entries : List KeyValue

pub record Response : Type 0 where
  pub is_ok : Bool
  pub events : List Event

abbrev pub NotifyCallback : Type 0 → Type 0
NotifyCallback S = Option (Str → Str → S → S)

module _ {S : Type 0} where
  pub notify : NotifyCallback S → KeyValue → S → S
  notify none kv s = s
  notify (some cb) kv s = cb kv.key kv.value s

  put_all : NotifyCallback S → List KeyValue → S → S
  unfolding notify
  put_all put_cb [] s = s
  put_all put_cb (kv ∷ kvs) s = put_all put_cb kvs (notify put_cb kv s)

  -- The constructor. An answer that is not ok is logged only, and its entries are handed on.
  unfoldable pub discovery : NotifyCallback S → Listing → S → S
  unfolding put_all
  discovery put_cb resp s = put_all put_cb resp.entries s

  pub handle : NotifyCallback S → NotifyCallback S → Event → S → S
  unfolding notify
  handle put_cb del_cb (put kv) s = notify put_cb kv s
  handle put_cb del_cb (delete prev_kv) s = notify del_cb prev_kv s
  handle put_cb del_cb other s = s

  pub handle_all : NotifyCallback S → NotifyCallback S → List Event → S → S
  unfolding handle
  handle_all put_cb del_cb [] s = s
  handle_all put_cb del_cb (ev ∷ evs) s = handle_all put_cb del_cb evs (handle put_cb del_cb ev s)

  pub callback : NotifyCallback S → NotifyCallback S → Response → S → S
  unfolding handle_all
  callback put_cb del_cb resp s = if resp.is_ok then handle_all put_cb del_cb resp.events s else s

-- `Registry::registry`, over what `put` of the client answers: its new state, and `is_ok`.
unfoldable pub registry :
    {C : Type 0} → (Str → Str → ℕ → C → C × Bool) → ℕ → Str → Str → C → C × Bool
registry put_key lease_id key val client =
    let (client', is_ok) = put_key key val lease_id client in
    if is_ok then (client', true) else (client', false)
