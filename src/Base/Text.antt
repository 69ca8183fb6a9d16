-- ===== src/Base/Text.antt =====
-- `std::string` as the list of its bytes, its equality, and literals in UTF-8.
use Prim.Native.Nat.{ℕ, ◌+◌, ◌/◌, ◌%◌}
use Prim.Native.Char.{code}
use Prim.Native.String.{String}
use mathlib.Core.Path.{◌≡◌, refl}
use mathlib.Core.Logic.{ite}
use mathlib.Core.Bool.{Bool, true, false}
use mathlib.Core.List.{List, [], ◌∷◌, ◌++◌}
use native.Mathlib.Decide.{ℕ_discrete}
use cpp_microservice_im.Base.Tests.{ltb, if◌then◌else◌}

abbrev pub Str : Type 0
Str = List ℕ

cons_dec : (a b : ℕ) (s t : Str) → Dec (a ≡ b) → Dec (s ≡ t) → Dec (a ∷ s ≡ b ∷ t)
cons_dec a b s t (yes p) (yes q) = yes (cc)
cons_dec a b s t (yes p) (no q) = no (λ e. q (cc))
cons_dec a b s t (no p) d = no (λ e. p (cc))

unfoldable pub Str-discrete : Discrete Str
unfolding cons_dec
Str-discrete [] [] = yes refl
Str-discrete [] (b ∷ t) = no (λ e. cc)
Str-discrete (a ∷ s) [] = no (λ e. cc)
Str-discrete (a ∷ s) (b ∷ t) = cons_dec a b s t (ℕ_discrete a b) (Str-discrete s t)

-- `==` of `std::string`.
infix 50 ◌==◌
abbrev pub ◌==◌ : Str → Str → Bool
s == t = ite (Str-discrete s t) true false

-- The bytes of one code point.
encode : ℕ → Str
encode c =
    if ltb c 0x80
    then c ∷ []
    else if ltb c 0x800
    then (0xc0 + c / 64) ∷ (0x80 + c % 64) ∷ []
    else if ltb c 0x10000
    then (0xe0 + c / 4096) ∷ (0x80 + c / 64 % 64) ∷ (0x80 + c % 64) ∷ []
    else (0xf0 + c / 262144) ∷ (0x80 + c / 4096 % 64) ∷ (0x80 + c / 64 % 64) ∷ (0x80 + c % 64) ∷ []

-- The bytes of a literal of the source. Shut, so that proofs carry the literal only.
unfoldable pub utf8 : String → Str
unfolding encode
utf8 String.[] = []
utf8 (String.◌∷◌ c s) = encode (code c) ++ utf8 s

-- Whether a set of strings has the string.
unfoldable pub contains : Str → List Str → Bool
contains s [] = false
contains s (t ∷ ts) = if s == t then true else contains s ts
