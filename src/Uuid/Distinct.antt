-- ===== src/Uuid/Distinct.antt =====
-- The bytes of an identifier.
use native.Mathlib.Nat.{pow-suc}
use cpp_microservice_im.Base.{
  ℕ, zero, suc, ◌+◌, ◌*◌, ◌/◌, ◌%◌, ◌^◌, ◌<◌, ◌≡◌, ◌≢◌, refl, sym, ap, ◌∙◌, Str, Bool, true, false,
  [], ◌∷◌, ◌++◌, arith, length, length-append, All, All-append, ltb, leb, eqb, if◌then◌else◌, drop,
  ◌||◌, ◌&&◌,
}
use cpp_microservice_im.Uuid.{hex_digit, hex, Generator, random_bytes, uuid}

pub uuid_idx :
    (distribution : ℕ → ℕ) (g : Generator) → (uuid distribution g).1.idx ≡ (g.idx + 1) % 2 ^ 16
unfolding uuid
uuid_idx distribution g = refl

-- `0`-`9`, `a`-`f` and the dash.
pub IsIdChar : ℕ → Type 0
IsIdChar c = (eqb c b'-' || (leb b'0' c && leb c b'9') || (leb b'a' c && leb c b'f')) ≡ true

length-hex : (w n : ℕ) → length (hex w n) ≡ w
unfolding hex
length-hex zero n = refl
length-hex (suc w) n =
    omega
      (arith, length-append {0} (hex w (n / 16)) (hex_digit (n % 16) ∷ []), length-hex w (n / 16))

hex_digit-IsIdChar : (d : ℕ) → d < 16 → IsIdChar (hex_digit d)
unfolding hex_digit IsIdChar
hex_digit-IsIdChar d h = ground arith

hex-IsIdChar : (w n : ℕ) → All IsIdChar (hex w n)
unfolding hex
hex-IsIdChar zero n = tt
hex-IsIdChar (suc w) n =
    All-append IsIdChar (hex w (n / 16)) _ (hex-IsIdChar w (n / 16))
      (hex_digit-IsIdChar (n % 16) (omega arith), tt)

hex_digit_inj : (c d : ℕ) → c < 16 → d < 16 → hex_digit c ≡ hex_digit d → c ≡ d
unfolding hex_digit
hex_digit_inj c d hc hd e = ground arith

snoc_inj : (s t : Str) (a b : ℕ) → s ++ (a ∷ []) ≡ t ++ (b ∷ []) → (s ≡ t) × (a ≡ b)
snoc_inj [] [] a b e = (refl, cc)
snoc_inj [] (y ∷ []) a b e = cc
snoc_inj [] (y ∷ z ∷ t) a b e = cc
snoc_inj (x ∷ []) [] a b e = cc
snoc_inj (x ∷ z ∷ s) [] a b e = cc
snoc_inj (x ∷ s) (y ∷ t) a b e =
    let tails : s ++ (a ∷ []) ≡ t ++ (b ∷ []) = cc in let (p, q) = snoc_inj s t a b tails in (cc, q)

-- Numbers of `w` digits are told apart by their digits.
hex_inj : (w m n : ℕ) → m < 16 ^ w → n < 16 ^ w → hex w m ≡ hex w n → m ≡ n
unfolding hex
hex_inj zero m n hm hn e = omega arith
hex_inj (suc w) m n hm hn e =
    let (front, last) = snoc_inj _ _ _ _ e in
    let high =
      hex_inj w (m / 16) (n / 16) (omega (arith, pow-suc 16 w)) (omega (arith, pow-suc 16 w))
        front in
    let low = hex_digit_inj (m % 16) (n % 16) (omega arith) (omega arith) last in omega arith

drop_past : (s t : Str) (c n : ℕ) → length s ≡ n → drop (suc n) (s ++ (c ∷ t)) ≡ t
drop_past [] t c zero e = refl
drop_past [] t c (suc n) e = absurd (omega arith)
drop_past (x ∷ s) t c zero e = absurd (omega arith)
drop_past (x ∷ s) t c (suc n) e = drop_past s t c n (omega arith)

dash-IsIdChar : IsIdChar b'-'
unfolding IsIdChar
dash-IsIdChar = refl

pub IsIdChar-ne-slash : (c : ℕ) → IsIdChar c → c ≢ b'/'
unfolding IsIdChar
IsIdChar-ne-slash c h e = ground arith

module _ (distribution : ℕ → ℕ) where
  length-random_bytes :
      (n drawn : ℕ)
      → length (random_bytes distribution n drawn) ≡ 2 * n + (if ltb 3 n then 1 else 0)
  unfolding random_bytes
  length-random_bytes zero drawn = refl
  length-random_bytes (suc n) drawn = ground (
    arith,
    length-random_bytes n (suc drawn),
    length-append {0} (if eqb n 3 then b'-' ∷ [] else [])
        (hex 2 (distribution drawn) ++ random_bytes distribution n (suc drawn)),
    length-append {0} (hex 2 (distribution drawn)) (random_bytes distribution n (suc drawn)),
    length-hex 2 (distribution drawn),
  )

  random_bytes-IsIdChar : (n drawn : ℕ) → All IsIdChar (random_bytes distribution n drawn)
  unfolding random_bytes
  random_bytes-IsIdChar zero drawn = tt
  random_bytes-IsIdChar (suc n) drawn =
      All-append IsIdChar (if eqb n 3 then b'-' ∷ [] else []) _ (dash (eqb n 3)) (
        All-append IsIdChar (hex 2 (distribution drawn)) _ (hex-IsIdChar 2 (distribution drawn))
          (random_bytes-IsIdChar n (suc drawn)))
    where
      dash : (b : Bool) → All IsIdChar (if b then b'-' ∷ [] else [])
      dash true = (dash-IsIdChar, tt)
      dash false = tt

  -- An identifier has 18 bytes, digits of base 16 and dashes.
  pub uuid_shape :
      (g : Generator) → (length (uuid distribution g).0 ≡ 18) × All IsIdChar (uuid distribution g).0
  unfolding uuid
  uuid_shape g = (
    omega (
      arith,
      length-append {0} (random_bytes distribution 6 g.drawn) (b'-' ∷ hex 4 g.idx),
      length-random_bytes 6 g.drawn,
      length-hex 4 g.idx,
    ),
    All-append IsIdChar (random_bytes distribution 6 g.drawn) _ (random_bytes-IsIdChar 6 g.drawn)
        (dash-IsIdChar, hex-IsIdChar 4 g.idx),
  )

  -- Identifiers with different counters of 16 bits differ, whatever was drawn.
  pub uuid-ne :
      (g h : Generator)
      → g.idx < 2 ^ 16
      → h.idx < 2 ^ 16
      → g.idx ≢ h.idx
      → (uuid distribution g).0 ≢ (uuid distribution h).0
  unfolding uuid
  uuid-ne g h hg hh apart e = apart (hex_inj 4 g.idx h.idx hg hh same)
    where
      tail_of : (k : Generator) → drop 14 (uuid distribution k).0 ≡ hex 4 k.idx
      tail_of k =
          drop_past (random_bytes distribution 6 k.drawn) (hex 4 k.idx) b'-' 13
            (length-random_bytes 6 k.drawn)

      same : hex 4 g.idx ≡ hex 4 h.idx
      same = sym (tail_of g) ∙ ap (drop 14) e ∙ tail_of h
