-- ===== src/User/Check.antt =====
-- `nickname_check`, `password_check` and `phone_check`. Bytes from 128 up, which are negative as a
-- `char`, fail each range test either way.
pub mod Accepted
use cpp_microservice_im.Base.{
  ℕ, zero, suc, ◌+◌, Str, Bool, true, false, not, ◌&&◌, ◌||◌, Option, none, some, [], ◌∷◌, length,
  ltb, leb, eqb, if◌then◌else◌,
}
use cpp_microservice_im.Base.Outcome.{Outcome, done, crash, Fault, out_of_range}

unfoldable pub nickname_check : Str → Bool
nickname_check nickname = ltb (length nickname) 22

abbrev pub is_password_char : ℕ → Bool
is_password_char c =
    (ltb b'a' c && ltb c b'z')
    || (ltb b'A' c && ltb c b'Z')
    || (ltb b'0' c && ltb c b'9')
    || (eqb c b'_' && ltb c b'-')

-- The loop over the characters.
unfoldable pub password_chars : Str → Bool
password_chars [] = true
password_chars (c ∷ cs) = if not (is_password_char c) then false else password_chars cs

unfoldable pub password_check : Str → Bool
unfolding password_chars
password_check password =
    if ltb (length password) 6 || ltb 15 (length password) then false else password_chars password

-- `operator[]` of `std::string`: the byte, the terminator at the end, and undefined beyond.
unfoldable pub char_at : Str → ℕ → Outcome ℕ
char_at [] zero = done 0
char_at [] (suc i) = crash out_of_range
char_at (c ∷ cs) zero = done c
char_at (c ∷ cs) (suc i) = char_at cs i

-- A read, and what is done with the byte.
abbrev pub with_char : Str → ℕ → (ℕ → Outcome Bool) → Outcome Bool
with_char s i f = elim (char_at s i) [ done c ↦ f c | crash e ↦ crash e ]

-- The loop from index `i`, with so many rounds left.
unfoldable pub phone_digits : Str → ℕ → ℕ → Outcome Bool
unfolding char_at
phone_digits phone zero i = done true
phone_digits phone (suc left) i =
    let rest = phone_digits phone left (suc i) in
    with_char phone i λ c. if ltb c b'0' || ltb b'9' c then done false else rest

unfoldable pub phone_check : Str → Outcome Bool
unfolding char_at
phone_check phone =
    if ltb (length phone) 1
    then done false
    else with_char phone 0 λ first.
      if not (eqb first b'1')
      then done false
      else with_char phone 1 λ second.
        if ltb second b'3' || ltb b'9' second then done false else phone_digits phone 9 2
