-- ===== src/Tests/Histories.antt =====
-- Calls of the file service in a row, a node that the watcher takes away, and a loop that is woken.
use cpp_microservice_im.Base.{
  ◌≡◌, refl, Str, true, false, none, some, [], ◌∷◌, ◌++◌, All, arith, contains,
}
use cpp_microservice_im.Base.Dict
use cpp_microservice_im.Channel.{obtain}
use cpp_microservice_im.Channel.Rotation.{hosts_of}
use cpp_microservice_im.Etcd.{Event, put, Listing, discovery}
use cpp_microservice_im.Etcd.Gap.{arrives, departs, listed_stays}
use cpp_microservice_im.Etcd.Listed.{puts}
use cpp_microservice_im.Etcd.Threads.{
  System, start, later, begin, commit, task_of, find_service, finish,
}
use cpp_microservice_im.Channel.{on_service_online}
use cpp_microservice_im.Base.Outcome.{done}
use cpp_microservice_im.File.{FileUploadData, get_single_file}
use cpp_microservice_im.File.Calls.{get_multi, put_single, put_multi, history, Call}
use cpp_microservice_im.File.History.{uploads_stay}
use cpp_microservice_im.Base.{List}
use cpp_microservice_im.Tests.Channels.{file, here, key, manager, manager-Follows, up}
use cpp_microservice_im.Tests.Concrete.{disk, disk-IsLawful, disk-Flushes}
use cpp_microservice_im.Tests.Files.{directory, distribution, server}

abbrev letter : Str
letter = b'x' ∷ []

abbrev one_upload : FileUploadData
one_upload = record { file_name = letter; file_size = 1; file_content = letter }

abbrev other_upload : FileUploadData
other_upload = record { file_name = letter; file_size = 0; file_content = [] }

abbrev calls : List Call
calls =
    put_single [] one_upload
    ∷ get_multi [] (letter ∷ [])
    ∷ put_multi [] (other_upload ∷ one_upload ∷ [])
    ∷ []

uploads_stay_example :
    let (es, t) = history disk directory distribution calls server in
    All
      (λ e.
        (rid : Str)
        → get_single_file disk directory rid e.0 t
          ≡ done (record {
            request_id = rid;
            success = true;
            errmsg = [];
            payload = some (record { file_id = e.0; file_content = e.1 });
          }))
      es
uploads_stay_example =
    uploads_stay disk directory distribution disk-IsLawful disk-Flushes calls server (omega arith)
      (omega arith)

-- A listing with one node, and another that comes up.
abbrev listing : Listing
listing = record { is_ok = true; entries = record { key = key; value = here } ∷ [] }

abbrev newcomer : Event
newcomer = put (record { key = key; value = letter })

abbrev both_up : System
both_up =
    let m = discovery (some (on_service_online up)) listing manager in
    record {
      manager = finish (task_of up newcomer m) (find_service newcomer m);
      handled = newcomer ∷ [];
      current = none;
    }

listed_stays_example :
    let there = contains here (hosts_of (obtain file both_up.manager)) in
    let evs = puts listing ++ both_up.handled in
    (arrives file here evs ≡ true → departs file here both_up.handled ≡ false → there ≡ true)
    × (there ≡ true → arrives file here evs ≡ true)
unfolding contains obtain Dict.lookup
listed_stays_example =
    listed_stays up (λ a h. refl) file here manager manager-Follows listing both_up refl
      (later (later start (begin newcomer refl)) (commit newcomer _ refl))
      ((λ e. refl), ((λ e. ground arith), tt))
