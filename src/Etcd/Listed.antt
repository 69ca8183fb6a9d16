-- ===== src/Etcd/Listed.antt =====
-- The entries that the constructor of `Discovery` hands on, and the events after them.
use cpp_microservice_im.Base.{◌≡◌, refl, ap, Str, some, List, [], ◌∷◌, ◌++◌, map}
use cpp_microservice_im.Etcd.{
  Event, put, delete, other, KeyValue, Listing, NotifyCallback, put_all, notify, discovery,
  handle_all,
}
use cpp_microservice_im.Etcd.Refine.{live_after, Fresh}

abbrev pub puts : Listing → List Event
puts resp = map put resp.entries

put_all-handle_all :
    {S : Type 0} (put_cb del_cb : NotifyCallback S) (kvs : List KeyValue) (s : S)
    → put_all put_cb kvs s ≡ handle_all put_cb del_cb (map put kvs) s
unfolding put_all handle_all
put_all-handle_all put_cb del_cb [] s = refl
put_all-handle_all put_cb del_cb (kv ∷ kvs) s = put_all-handle_all put_cb del_cb kvs _

-- The listing is handled as if each entry had come up just now.
pub discovery-handle_all :
    {S : Type 0} (put_cb del_cb : NotifyCallback S) (resp : Listing) (s : S)
    → discovery put_cb resp s ≡ handle_all put_cb del_cb (puts resp) s
unfolding discovery
discovery-handle_all put_cb del_cb resp s = put_all-handle_all put_cb del_cb resp.entries s

pub live_after-append :
    (name : Str) (xs ys : List Event) (live : List Str)
    → live_after name (xs ++ ys) live ≡ live_after name ys (live_after name xs live)
unfolding live_after
live_after-append name [] ys live = refl
live_after-append name (put kv ∷ xs) ys live = live_after-append name xs ys _
live_after-append name (delete kv ∷ xs) ys live = live_after-append name xs ys _
live_after-append name (other ∷ xs) ys live = live_after-append name xs ys live

pub Fresh-append :
    (name : Str) (xs ys : List Event) (live : List Str)
    → Fresh name (xs ++ ys) live
    → Fresh name xs live × Fresh name ys (live_after name xs live)
unfolding live_after
Fresh-append name [] ys live f = (tt, f)
Fresh-append name (put kv ∷ xs) ys live f =
    let (a, b) = Fresh-append name xs ys _ f.1 in ((f.0, a), b)
Fresh-append name (delete kv ∷ xs) ys live f = Fresh-append name xs ys _ f
Fresh-append name (other ∷ xs) ys live f = Fresh-append name xs ys live f

pub discovery_one :
    {S : Type 0} (cb : Str → Str → S → S) (resp : Listing) (kv : KeyValue) (s : S)
    → resp.entries ≡ kv ∷ []
    → discovery (some cb) resp s ≡ cb kv.key kv.value s
unfolding discovery put_all notify
discovery_one cb resp kv s e = ap (λ l. put_all (some cb) l s) e
