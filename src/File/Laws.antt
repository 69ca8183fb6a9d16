-- ===== src/File/Laws.antt =====
-- What the file service relies on of the file system.
use cpp_microservice_im.Base.{
  ◌≡◌, ◌≢◌, ap, Str, true, some, ◌++◌, All, length, arith, Option-cases, inl, inr,
}
use cpp_microservice_im.Base.{◌≤◌}
use cpp_microservice_im.Base.Outcome.{done}
use cpp_microservice_im.File.{FileSystem, read_file, write_file}

-- A name of an entry in a directory.
abbrev pub IsPlain : Str → Type 0
IsPlain = All (λ c. c ≢ b'/')

-- The file can be opened, and holds these bytes, which fit in a string.
abbrev pub Holds : (F : FileSystem) → Str → Str → F.State → Type 0
Holds F path body s =
    (stream : F.Stream) × (F.open_in path s ≡ some stream)
    × (F.size stream ≡ length body)
    × (length body ≤ F.max_size)
    × (F.read stream (length body) ≡ some body)

-- A file that was opened anew, written and flushed holds what was written. Writing one entry of a
-- directory leaves what can be opened under another.
pub record IsLawful (F : FileSystem) : Type 0 where
  pub written :
      (path body : Str) (s t u v : F.State)
      → F.open_out path s ≡ some t
      → F.write path body t ≡ (true, u)
      → F.close path u ≡ (true, v)
      → Holds F path body v
  pub open_out_other :
      (dir a b : Str) (s t : F.State)
      → IsPlain a
      → IsPlain b
      → a ≢ b
      → F.open_out (dir ++ a) s ≡ some t
      → F.open_in (dir ++ b) t ≡ F.open_in (dir ++ b) s
  pub write_other :
      (dir a b body : Str) (s : F.State)
      → IsPlain a
      → IsPlain b
      → a ≢ b
      → F.open_in (dir ++ b) (F.write (dir ++ a) body s).1 ≡ F.open_in (dir ++ b) s
  pub close_other :
      (dir a b : Str) (s : F.State)
      → IsPlain a
      → IsPlain b
      → a ≢ b
      → F.open_in (dir ++ b) (F.close (dir ++ a) s).1 ≡ F.open_in (dir ++ b) s

-- No flush at `close` fails: the source does not look at its outcome.
abbrev pub Flushes : FileSystem → Type 0
Flushes F = (path : Str) (s : F.State) → (F.close path s).0 ≡ true

module _ (F : FileSystem) (L : IsLawful F) where
  pub read_file-write_file :
      (path body : Str) (s : F.State)
      → Flushes F
      → (write_file F path body s).0 ≡ true
      → read_file F path (write_file F path body s).1 ≡ done (some body)
  unfolding read_file write_file
  read_file-write_file path body s flushes h = elim (Option-cases (F.open_out path s)) [
    | inl e ↦ cc (rw (e, write_file) at h)
    | inr (t, e) ↦
        let u = (F.write path body t).1 in
        let good : (F.write path body t).0 ≡ true = rw (e, write_file) at h in
        let (stream, found, sized, fits, whole) =
          L.written path body s t u (F.close path u).1 e (ap (λ b. (b, u)) good)
            (ap (λ b. (b, (F.close path u).1)) (flushes path u)) in
        rw (e, write_file) (rw (found, read_file) (rw sized (ground (arith, fits, whole))))
  ]

  pub read_file-write_file_other :
      (dir a b body : Str) (s : F.State)
      → IsPlain a
      → IsPlain b
      → a ≢ b
      → read_file F (dir ++ b) (write_file F (dir ++ a) body s).1 ≡ read_file F (dir ++ b) s
  unfolding read_file write_file
  read_file-write_file_other dir a b body s pa pb n =
      elim (Option-cases (F.open_out (dir ++ a) s)) [
        | inl e ↦ rw (e, write_file)
        | inr (t, e) ↦ ground (
          arith,
          L.open_out_other dir a b s t pa pb n e,
          L.write_other dir a b body t pa pb n,
          L.close_other dir a b (F.write (dir ++ a) body t).1 pa pb n,
        )
      ]
