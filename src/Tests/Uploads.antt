-- ===== src/Tests/Uploads.antt =====
-- Two uploads that overlap.
use cpp_microservice_im.Base.{◌≡◌, refl, Str, true, some, [], ◌∷◌, arith}
use cpp_microservice_im.Base.Outcome.{done}
use cpp_microservice_im.File.{FileUploadData, get_single_file}
use mathlib.Core.Option.{some-injective}
use cpp_microservice_im.Base.{sym, ap, ◌∙◌, ◌++◌, ◌≢◌}
use cpp_microservice_im.Base.Dict
use cpp_microservice_im.Base.{◌≤◌, length}
use cpp_microservice_im.Tests.Concrete.{max_size, fits}
use cpp_microservice_im.Base.Dict.{Dict}
use cpp_microservice_im.File.Streams.{HasStreams, Touch, opens, writes, closes}
use cpp_microservice_im.File.Threads.Owned.{Each}
use cpp_microservice_im.File.Threads.{
  Answer, naming, writing, filling, closing, answered, put_step, Service, Reach, start, later,
  arrive, goes_on, message_info,
}
use cpp_microservice_im.File.Threads.Apart.{overlapping_uploads}
use cpp_microservice_im.Proto.{reply}
use cpp_microservice_im.Tests.Concrete.{
  disk, other_lookup, same_lookup, disk-IsLawful, disk-Flushes,
}
use cpp_microservice_im.Tests.Files.{directory, distribution, server}
use cpp_microservice_im.Uuid.{uuid}

abbrev first_name : Str
first_name = (uuid distribution server.ids).0

abbrev second_name : Str
second_name = (uuid distribution (uuid distribution server.ids).1).0

abbrev early : FileUploadData
early = record { file_name = b'e' ∷ []; file_size = 1; file_content = b'x' ∷ [] }

abbrev late : FileUploadData
late = record { file_name = b'l' ∷ []; file_size = 1; file_content = b'y' ∷ [] }

abbrev empty_answer : Answer
empty_answer = reply [] []

abbrev full_answer : Answer
full_answer = record empty_answer { payload = message_info first_name early ∷ [] }

-- Both take an identifier, and the second writes while the first is open.
abbrev run :
    (s : Service disk directory distribution) × Reach disk directory distribution server 2 s
unfolding put_step
run =
    let r = later start (arrive 0 [] (early ∷ []) refl) in
    let r = later r (arrive 1 [] (late ∷ []) refl) in
    let r = later r (goes_on 0 (early ∷ []) (naming (early ∷ []) empty_answer) refl) in
    let r = later r (goes_on 1 (late ∷ []) (naming (late ∷ []) empty_answer) refl) in
    let r = later r (goes_on 0 (early ∷ []) (writing first_name early [] empty_answer) refl) in
    let r = later r (goes_on 1 (late ∷ []) (writing second_name late [] empty_answer) refl) in
    let r = later r (goes_on 1 (late ∷ []) (filling second_name late [] empty_answer) refl) in
    let r = later r (goes_on 0 (early ∷ []) (filling first_name early [] empty_answer) refl) in
    let r = later r (goes_on 0 (early ∷ []) (closing first_name early [] empty_answer true) refl) in
    (_, later r (goes_on 0 (early ∷ []) (naming [] full_answer) refl))

there : run.0.threads 0 ≡ some (early ∷ [], answered (record full_answer { success = true }))
unfolding put_step
there = refl

-- What an operation leaves under the path of another entry.
Touch-disk :
    (dir a b : Str) (s t : Dict Str)
    → a ≢ b
    → Touch disk (dir ++ a) s t
    → Dict.lookup (dir ++ b) t ≡ Dict.lookup (dir ++ b) s
Touch-disk dir a b s _ n (opens t e) =
    ap (Dict.lookup (dir ++ b)) (sym (some-injective _ _ e)) ∙ other_lookup dir a b [] s n
Touch-disk dir a b s _ n (writes body) = other_lookup dir a b body s n
Touch-disk dir a b s _ n closes = refl

disk-HasStreams : HasStreams disk
disk-HasStreams = record {
  Open = λ path s. Dict.lookup path s ≡ some [];
  Filled = λ path body s. (Dict.lookup path s ≡ some body) × (length body ≤ max_size);
  opened = λ path s t e. ap (Dict.lookup path) (sym (some-injective _ _ e)) ∙ same_lookup path [] s;
  filled = λ path body s fresh good. (same_lookup path body s, fits body good);
  closed = λ path body s full good. (body, full.0, refl, full.1, refl);
  open_other = λ dir a b s t pa pb n touch h. Touch-disk dir a b s t n touch ∙ h;
  filled_other = λ dir a b body s t pa pb n touch h. (Touch-disk dir a b s t n touch ∙ h.0, h.1);
}

overlapping_uploads_example :
    Each
      (λ info d.
        (info.file_name ≡ d.file_name)
        × (info.file_size ≡ d.file_size)
        × ((rid : Str)
            → get_single_file disk directory rid info.file_id run.0.server
              ≡ done (record {
                request_id = rid;
                success = true;
                errmsg = [];
                payload = some (record { file_id = info.file_id; file_content = d.file_content });
              })))
      (message_info first_name early ∷ [])
      (early ∷ [])
overlapping_uploads_example =
    overlapping_uploads disk directory distribution disk-IsLawful disk-HasStreams disk-Flushes
      server 2 run.0 (omega arith) run.1 (omega arith) 0 (early ∷ [])
      (record full_answer { success = true }) there refl
