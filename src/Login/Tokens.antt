-- ===== src/Login/Tokens.antt =====
-- `GenerateToken` of ServerCore/SqlUtils.h. The readings of `std::random_device` are the argument `rd`, a
-- token takes eight of them.
use j1_server.Prelude.{
  ℕ, zero, suc, ◌+◌, ◌-◌, ◌*◌, ◌/◌, ◌%◌, ◌^◌, ◌≤◌, ◌⊎◌, List, [], ◌∷◌, ◌++◌, take, drop, ltb,
  if◌then◌else◌,
}

-- A digit of `std::hex`.
abbrev pub hex_digit : ℕ → ℕ
hex_digit d = if ltb d 10 then d + 48 else d + 87

-- `std::hex` with `setw(n)` and `setfill('0')`, for a number of at most n digits.
unfoldable pub hex_word : ℕ → ℕ → List ℕ
hex_word zero w = []
hex_word (suc n) w = hex_word n (w / 16) ++ hex_digit (w % 16) ∷ []

-- The words of `data`: n readings from the i-th on, as `uint32_t`.
abbrev pub readings : (ℕ → ℕ) → ℕ → ℕ → List ℕ
readings rd i zero = []
readings rd i (suc n) = rd i % 2 ^ 32 ∷ readings rd (i + 1) n

unfoldable pub hex_words : List ℕ → List ℕ
unfolding hex_word
hex_words [] = []
hex_words (w ∷ ws) = hex_word 8 w ++ hex_words ws

unfoldable pub generate_token : (ℕ → ℕ) → ℕ → List ℕ
unfolding hex_words
generate_token rd i = hex_words (readings rd i 8)

-- '0' to '9' and 'a' to 'f'
abbrev pub IsHexDigit : ℕ → Type 0
IsHexDigit d = ((48 ≤ d) × (d ≤ 57)) ⊎ ((97 ≤ d) × (d ≤ 102))

-- The number that a digit stands for.
abbrev pub digit_value : ℕ → ℕ
digit_value d = if ltb d 97 then d - 48 else d - 87

abbrev pub value : ℕ → List ℕ → ℕ
value acc [] = acc
value acc (d ∷ ds) = value (acc * 16 + digit_value d) ds

-- The words of a text, eight digits each.
abbrev pub words : ℕ → List ℕ → List ℕ
words zero text = []
words (suc n) text = value 0 (take 8 text) ∷ words n (drop 8 text)
