-- ===== src/Uuid.antt =====
-- code/server/common/utils.hpp: `uuid`. What the distribution draws, in order, is a sequence of
-- numbers, which the C++ library keeps below 256.
pub mod Distinct
use cpp_microservice_im.Base.{
  ℕ, zero, suc, ◌+◌, ◌-◌, ◌/◌, ◌%◌, ◌^◌, Str, [], ◌∷◌, ◌++◌, ltb, eqb, if◌then◌else◌,
}

unfoldable pub hex_digit : ℕ → ℕ
hex_digit d = if ltb d 10 then b'0' + d else b'a' + (d - 10)

-- `std::setw(w) << std::setfill('0') << std::hex << n`, for a number of at most `w` digits.
unfoldable pub hex : ℕ → ℕ → Str
unfolding hex_digit
hex zero n = []
hex (suc w) n = hex w (n / 16) ++ (hex_digit (n % 16) ∷ [])

-- `drawn` counts the draws; `idx` is the bit pattern of the static `short`, printed as unsigned.
pub record Generator : Type 0 where
  pub drawn : ℕ
  pub idx : ℕ

module _ (distribution : ℕ → ℕ) where
  -- The rounds of the loop that are left, of six.
  unfoldable pub random_bytes : ℕ → ℕ → Str
  unfolding hex
  random_bytes zero drawn = []
  random_bytes (suc rounds) drawn =
      (if eqb rounds 3 then b'-' ∷ [] else [])
      ++ (hex 2 (distribution drawn) ++ random_bytes rounds (suc drawn))

  unfoldable pub uuid : Generator → Str × Generator
  uuid g = (
    random_bytes 6 g.drawn ++ (b'-' ∷ hex 4 g.idx),
    record { drawn = g.drawn + 6; idx = (g.idx + 1) % 2 ^ 16 },
  )
