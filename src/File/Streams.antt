-- ===== src/File/Streams.antt =====
-- Streams that are open at the same time, each on an entry of its own.
use cpp_microservice_im.Base.{◌≡◌, ◌≢◌, Str, true, some, ◌++◌, arith}
use cpp_microservice_im.Base.Outcome.{done}
use cpp_microservice_im.File.{FileSystem, read_file}
use cpp_microservice_im.File.Laws.{IsLawful, IsPlain, Holds}

-- What an operation of an output stream leaves.
pub data Touch (F : FileSystem) (path : Str) (s : F.State) : F.State → Type 0 where
  opens : (t : F.State) → F.open_out path s ≡ some t → Touch F path s t
  writes : (body : Str) → Touch F path s (F.write path body s).1
  closes : Touch F path s (F.close path s).1

-- `Open` says that a path was opened anew, `Filled` that what was written since is this text. The streams
-- on other entries of the directory do not change either.
pub record HasStreams (F : FileSystem) : Type 1 where
  pub Open : Str → F.State → Type 0
  pub Filled : Str → Str → F.State → Type 0
  pub opened : (path : Str) (s t : F.State) → F.open_out path s ≡ some t → Open path t
  pub filled :
      (path body : Str) (s : F.State)
      → Open path s
      → (F.write path body s).0 ≡ true
      → Filled path body (F.write path body s).1
  pub closed :
      (path body : Str) (s : F.State)
      → Filled path body s
      → (F.close path s).0 ≡ true
      → Holds F path body (F.close path s).1
  pub open_other :
      (dir a b : Str) (s t : F.State)
      → IsPlain a
      → IsPlain b
      → a ≢ b
      → Touch F (dir ++ a) s t
      → Open (dir ++ b) s
      → Open (dir ++ b) t
  pub filled_other :
      (dir a b body : Str) (s t : F.State)
      → IsPlain a
      → IsPlain b
      → a ≢ b
      → Touch F (dir ++ a) s t
      → Filled (dir ++ b) body s
      → Filled (dir ++ b) body t

pub read_file-close :
    (F : FileSystem) (H : HasStreams F) (path body : Str) (s : F.State)
    → H.Filled path body s
    → (F.close path s).0 ≡ true
    → read_file F path (F.close path s).1 ≡ done (some body)
unfolding read_file
read_file-close F H path body s full good =
    let (stream, found, sized, fits, whole) = H.closed path body s full good in
    rw (found, read_file) (rw sized (ground (arith, fits, whole)))

pub read_file-Touch :
    (F : FileSystem) (L : IsLawful F) (dir a b : Str) (s t : F.State)
    → IsPlain a
    → IsPlain b
    → a ≢ b
    → Touch F (dir ++ a) s t
    → read_file F (dir ++ b) t ≡ read_file F (dir ++ b) s
unfolding read_file
read_file-Touch F L dir a b s _ pa pb n (opens t e) =
    ground (arith, L.open_out_other dir a b s t pa pb n e)
read_file-Touch F L dir a b s _ pa pb n (writes body) =
    ground (arith, L.write_other dir a b body s pa pb n)
read_file-Touch F L dir a b s _ pa pb n closes = ground (arith, L.close_other dir a b s pa pb n)
