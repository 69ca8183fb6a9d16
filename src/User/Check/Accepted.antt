-- ===== src/User/Check/Accepted.antt =====
-- Which passwords and phone numbers are accepted.
use cpp_microservice_im.Base.{
  ℕ, zero, suc, ◌≤◌, ◌<◌, ◌≡◌, ◌↔◌, refl, ◌∙◌, Str, Bool, true, false, ◌&&◌, ◌||◌, [], ◌∷◌, All,
  arith, length, leb, eqb,
}
use cpp_microservice_im.Base.Outcome.{done}
use cpp_microservice_im.User.Check.{
  nickname_check, password_check, password_chars, is_password_char, phone_check, phone_digits,
}

pub nickname_check-lt : (s : Str) → nickname_check s ≡ true → length s < 22
unfolding nickname_check
nickname_check-lt s h = ground arith

-- The letters from b to y of either case, and the digits from 1 to 8.
abbrev pub is_inner : ℕ → Bool
is_inner c = (leb b'b' c && leb c b'y') || (leb b'B' c && leb c b'Y') || (leb b'1' c && leb c b'8')

char_lem : (c : ℕ) → is_password_char c ≡ is_inner c
char_lem c = ground arith

password_chars_lem : (s : Str) → (password_chars s ≡ true) ↔ All (λ c. is_inner c ≡ true) s
unfolding password_chars
password_chars_lem [] = (λ h. tt, λ h. refl)
password_chars_lem (c ∷ cs) = ground (arith, char_lem c, password_chars_lem cs)

-- A password is accepted exactly when it has 6 to 15 bytes, each of them a letter from b to y of
-- either case or a digit from 1 to 8. So none with an underscore or a dash is.
pub password_check_iff :
    (s : Str)
    → (password_check s ≡ true)
      ↔ ((6 ≤ length s) × (length s ≤ 15) × All (λ c. is_inner c ≡ true) s)
unfolding password_check
password_check_iff s = ground (arith, password_chars_lem s)

-- So many leading digits.
unfoldable pub leading_digits : ℕ → Str → Bool
leading_digits zero s = true
leading_digits (suc n) [] = false
leading_digits (suc n) (c ∷ cs) = leb b'0' c && leb c b'9' && leading_digits n cs

-- `1`, a digit from 3 to 9, nine digits, and anything behind them.
abbrev pub looks_like_phone : Str → Bool
looks_like_phone [] = false
looks_like_phone (a ∷ []) = false
looks_like_phone (a ∷ b ∷ s) = eqb a b'1' && leb b'3' b && leb b b'9' && leading_digits 9 s

phone_digits_shift : (n i c : ℕ) (s : Str) → phone_digits (c ∷ s) n (suc i) ≡ phone_digits s n i
unfolding phone_digits
phone_digits_shift zero i c s = refl
phone_digits_shift (suc n) i c s = rw (phone_digits_shift n (suc i) c s)

phone_digits_lem : (n : ℕ) (s : Str) → phone_digits s n 0 ≡ done (leading_digits n s)
unfolding phone_digits leading_digits
phone_digits_lem zero s = refl
phone_digits_lem (suc n) [] = refl
phone_digits_lem (suc n) (c ∷ s) = ground (arith, phone_digits_shift n 0 c s, phone_digits_lem n s)

-- The check reads no byte behind the terminator, whatever the length, and accepts exactly the texts
-- that begin like a phone number of eleven digits; longer ones too.
pub phone_check_lem : (s : Str) → phone_check s ≡ done (looks_like_phone s)
unfolding phone_check
phone_check_lem [] = refl
phone_check_lem (a ∷ []) = ground arith
phone_check_lem (a ∷ b ∷ s) =
    let from_third =
      phone_digits_shift 9 1 a (b ∷ s) ∙ phone_digits_shift 9 0 b s ∙ phone_digits_lem 9 s in
    rw from_third (ground arith)
