-- ===== src/Login/Hex.antt =====
-- The text of a token of ServerCore/SqlUtils.h, digit by digit.
use j1_server.Prelude.{
  ℕ, zero, suc, ◌+◌, ◌*◌, ◌/◌, ◌%◌, ◌^◌, ◌<◌, ◌≡◌, refl, ap, ◌∙◌, List, [], ◌∷◌, ◌++◌, arith,
  length, All, take, drop, length-append, take_append, drop_append,
}
use j1_server.Login.Tokens.{
  hex_digit, hex_word, readings, hex_words, generate_token, IsHexDigit, digit_value, value, words,
}

-- 16 to the power of n.
abbrev limit : ℕ → ℕ
limit zero = 1
limit (suc n) = limit n * 16

append-All : (P : ℕ → Type 0) (xs ys : List ℕ) → All P xs → All P ys → All P (xs ++ ys)
append-All P [] ys h k = k
append-All P (x ∷ xs) ys h k = (h.0, append-All P xs ys h.1 k)

hex_digit-IsHexDigit : (d : ℕ) → d < 16 → IsHexDigit (hex_digit d)
hex_digit-IsHexDigit d h = ground arith

digit_value-hex_digit : (d : ℕ) → d < 16 → digit_value (hex_digit d) ≡ d
digit_value-hex_digit d h = ground arith

value-append : (acc : ℕ) (xs ys : List ℕ) → value acc (xs ++ ys) ≡ value (value acc xs) ys
value-append acc [] ys = refl
value-append acc (x ∷ xs) ys = value-append (acc * 16 + digit_value x) xs ys

length-hex_word : (n w : ℕ) → length (hex_word n w) ≡ n
unfolding hex_word
length-hex_word zero w = refl
length-hex_word (suc n) w = omega (
  arith,
  length-append (hex_word n (w / 16)) (hex_digit (w % 16) ∷ []),
  length-hex_word n (w / 16),
)

hex_word-IsHexDigit : (n w : ℕ) → All IsHexDigit (hex_word n w)
unfolding hex_word
hex_word-IsHexDigit zero w = tt
hex_word-IsHexDigit (suc n) w =
    append-All IsHexDigit (hex_word n (w / 16)) (hex_digit (w % 16) ∷ [])
      (hex_word-IsHexDigit n (w / 16)) (hex_digit-IsHexDigit (w % 16) (omega arith), tt)

value-hex_word : (n w : ℕ) → w < limit n → value 0 (hex_word n w) ≡ w
unfolding hex_word
value-hex_word zero w h = omega arith
value-hex_word (suc n) w h =
    let upper = value-hex_word n (w / 16) (omega arith) in
    let last = digit_value-hex_digit (w % 16) (omega arith) in
    value-append 0 (hex_word n (w / 16)) (hex_digit (w % 16) ∷ [])
    ∙ (let e : value 0 (hex_word n (w / 16)) * 16 + digit_value (hex_digit (w % 16)) ≡ w =
          omega (arith, upper, last) in
        e)

-- Words below 2^32.
abbrev IsWords : List ℕ → Type 0
IsWords ws = All (λ w. w < 2 ^ 32) ws

hex_words_lem :
    (ws : List ℕ)
    → IsWords ws
    → (length (hex_words ws) ≡ length ws * 8)
      × All IsHexDigit (hex_words ws)
      × (words (length ws) (hex_words ws) ≡ ws)
unfolding hex_words
hex_words_lem [] h = (refl, tt, refl)
hex_words_lem (w ∷ ws) h =
    let (long, digits, back) = hex_words_lem ws h.1 in
    let eight = length-hex_word 8 w in
    let first : value 0 (take 8 (hex_word 8 w ++ hex_words ws)) ≡ w =
      ap (value 0) (take_append (hex_word 8 w) (hex_words ws) eight) ∙ value-hex_word 8 w h.0 in
    let rest : words (length ws) (drop 8 (hex_word 8 w ++ hex_words ws)) ≡ ws =
      ap (words (length ws)) (drop_append (hex_word 8 w) (hex_words ws) eight) ∙ back in
    (
      omega (arith, length-append (hex_word 8 w) (hex_words ws), eight, long),
      append-All IsHexDigit (hex_word 8 w) (hex_words ws) (hex_word-IsHexDigit 8 w) digits,
      (λ i. first i ∷ rest i),
    )

readings-IsWords : (rd : ℕ → ℕ) (i n : ℕ) → IsWords (readings rd i n)
readings-IsWords rd i zero = tt
readings-IsWords rd i (suc n) = (omega arith, readings-IsWords rd (i + 1) n)

-- A token has 64 characters, all of them digits from '0' to '9' or from 'a' to 'f', and reading it eight
-- digits at a time gives back the eight 32-bit words that it was made of, so that different words
-- make different tokens.
pub generate_token-words :
    (rd : ℕ → ℕ) (i : ℕ)
    → (length (generate_token rd i) ≡ 64)
      × All IsHexDigit (generate_token rd i)
      × (words 8 (generate_token rd i) ≡ readings rd i 8)
unfolding generate_token
generate_token-words rd i = hex_words_lem (readings rd i 8) (readings-IsWords rd i 8)
