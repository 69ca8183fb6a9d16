-- ===== src/File/Threads/Names.antt =====
-- The identifiers of a process, by number.
use cpp_microservice_im.Base.{ℕ, zero, suc, ◌+◌, ◌%◌, ◌^◌, ◌<◌, ◌≡◌, ◌≢◌, Str, All-mono, arith}
use cpp_microservice_im.File.Laws.{IsPlain}
use cpp_microservice_im.Uuid.{Generator, uuid}
use cpp_microservice_im.Uuid.Distinct.{uuid_idx, uuid_shape, uuid-ne, IsIdChar-ne-slash}

module _ (distribution : ℕ → ℕ) (g : Generator) where
  -- The generator after so many identifiers.
  unfoldable pub nth : ℕ → Generator
  nth zero = g
  nth (suc i) = (uuid distribution (nth i)).1

  abbrev pub name : ℕ → Str
  name i = (uuid distribution (nth i)).0

  nth-idx : (i : ℕ) → g.idx < 2 ^ 16 → (nth i).idx ≡ (g.idx + i) % 2 ^ 16
  unfolding nth
  nth-idx zero small = omega arith
  nth-idx (suc i) small = omega (arith, nth-idx i small, uuid_idx distribution (nth i))

  -- Of 2 ^ 16 identifiers in a row no two are the same.
  pub name-ne : (i j : ℕ) → g.idx < 2 ^ 16 → i < 2 ^ 16 → j < 2 ^ 16 → i ≢ j → name i ≢ name j
  name-ne i j small hi hj apart =
      let a = nth-idx i small in
      let b = nth-idx j small in
      uuid-ne distribution (nth i) (nth j) (omega arith) (omega arith) (omega arith)

  pub name-IsPlain : (i : ℕ) → IsPlain (name i)
  name-IsPlain i = All-mono _ _ (name i) IsIdChar-ne-slash (uuid_shape distribution (nth i)).1
