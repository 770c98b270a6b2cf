-- ===== src/Persistence/Keys/Chrono.antt =====
-- The order of the sort keys of the two sparse indexes in keys.ts. DynamoDB orders strings by their
-- bytes, which for ASCII is the order of the code units.
use api_proxy.Base.{
  ℕ, zero, suc, ◌+◌, ◌-◌, ◌*◌, ◌/◌, ◌%◌, ◌<◌, ◌≤◌, ◌≡◌, refl, sym, ap, ◌∙◌, ◌⊎◌, inl, inr, true,
  false, Text, codes, [], ◌∷◌, ◌++◌, length, length-append, ltb, ltb→lt, lt→ltb, Bool-cases,
  decimal, decimal_fuel, text_lt, arith,
}
use api_proxy.Persistence.Keys.{replicate, pad_start, chrono_prefix}

text_lt-append :
    (s t u v : Text) → length s ≡ length t → text_lt s t ≡ true → text_lt (s ++ u) (t ++ v) ≡ true
unfolding text_lt
text_lt-append [] [] u v e h = cc
text_lt-append [] (d ∷ t) u v e h = absurd (omega arith)
text_lt-append (c ∷ s) [] u v e h = absurd (omega arith)
text_lt-append (c ∷ s) (d ∷ t) u v e h = ground (arith, text_lt-append s t u v)

text_lt-cancel : (s u v : Text) → text_lt (s ++ u) (s ++ v) ≡ text_lt u v
unfolding text_lt
text_lt-cancel [] u v = refl
text_lt-cancel (c ∷ s) u v = ground (arith, text_lt-cancel s u v)

text_lt-asym :
    (s t u : Text) → length s ≡ length t → text_lt s t ≡ true → text_lt (t ++ u) s ≡ false
unfolding text_lt
text_lt-asym [] [] u e h = cc
text_lt-asym [] (d ∷ t) u e h = absurd (omega arith)
text_lt-asym (c ∷ s) [] u e h = absurd (omega arith)
text_lt-asym (c ∷ s) (d ∷ t) u e h = ground (arith, text_lt-asym s t u)

-- `width` digits, the last one first computed.
fixed : ℕ → ℕ → Text
fixed zero n = []
fixed (suc w) n = fixed w (n / 10) ++ (48 + n % 10) ∷ []

power_of_ten : ℕ → ℕ
power_of_ten zero = 1
power_of_ten (suc w) = 10 * power_of_ten w

length-fixed : (w n : ℕ) → length (fixed w n) ≡ w
unfolding fixed
length-fixed zero n = refl
length-fixed (suc w) n =
    omega (arith, length-fixed w (n / 10), length-append (fixed w (n / 10)) ((48 + n % 10) ∷ []))

tens : (a b : ℕ) → a < b → ((a / 10) < (b / 10)) ⊎ (((a / 10) ≡ (b / 10)) × ((a % 10) < (b % 10)))
tens a b h = ground arith

units : (c d : ℕ) → c < d → text_lt ((48 + c) ∷ []) ((48 + d) ∷ []) ≡ true
unfolding text_lt
units c d h = ground arith

fixed-text_lt : (w a b : ℕ) → a < b → b < power_of_ten w → text_lt (fixed w a) (fixed w b) ≡ true
unfolding fixed power_of_ten
fixed-text_lt zero a b h k = absurd (omega arith)
fixed-text_lt (suc w) a b h k = elim (tens a b h) [
  | inl c ↦
      text_lt-append (fixed w (a / 10)) (fixed w (b / 10)) _ _
        (length-fixed w (a / 10) ∙ sym (length-fixed w (b / 10)))
        (fixed-text_lt w (a / 10) (b / 10) c (ground arith))
  | inr (e, d) ↦ rw (e, text_lt-cancel) (units (a % 10) (b % 10) d)
]

append_assoc : (s t u : Text) → (s ++ t) ++ u ≡ s ++ (t ++ u)
append_assoc [] t u = refl
append_assoc (c ∷ s) t u = ap (◌∷◌ c) (append_assoc s t u)

replicate-last : (w c : ℕ) → replicate w c ++ (c ∷ []) ≡ replicate (suc w) c
replicate-last zero c = refl
replicate-last (suc w) c = ap (◌∷◌ c) (replicate-last w c)

fixed-zero : (w : ℕ) → fixed w 0 ≡ replicate w 48
unfolding fixed
fixed-zero zero = refl
fixed-zero (suc w) = ap (λ t. t ++ (48 ∷ [])) (fixed-zero w) ∙ replicate-last w 48

pad_start-last :
    (w d : ℕ) (t : Text) → pad_start (suc w) (t ++ (d ∷ [])) ≡ pad_start w t ++ (d ∷ [])
unfolding pad_start
pad_start-last w d t =
    let e : suc w - length (t ++ (d ∷ [])) ≡ w - length t =
      omega (arith, length-append t (d ∷ [])) in
    ap (λ k. replicate k 48 ++ (t ++ (d ∷ []))) e
    ∙ sym (append_assoc (replicate (w - length t) 48) t (d ∷ []))

-- A small number is one digit after zeros.
pad_start-digit : (w n : ℕ) → n < 10 → pad_start (suc w) ((48 + n) ∷ []) ≡ fixed (suc w) n
unfolding pad_start fixed
pad_start-digit w n h =
    let q : n / 10 ≡ 0 = omega arith in
    let r : n % 10 ≡ n = omega arith in
    let e : suc w - 1 ≡ w = omega arith in
    ap (λ k. replicate k 48 ++ ((48 + n) ∷ [])) e
    ∙ ap (λ t. t ++ ((48 + n) ∷ [])) (sym (fixed-zero w) ∙ ap (fixed w) (sym q))
    ∙ ap (λ k. fixed w (n / 10) ++ ((48 + k) ∷ [])) (sym r)

pad_start-many :
    (v f n : ℕ)
    → pad_start (suc v) (decimal_fuel f (n / 10)) ≡ fixed (suc v) (n / 10)
    → pad_start (suc (suc v)) (decimal_fuel f (n / 10) ++ ((48 + n % 10) ∷ []))
      ≡ fixed (suc (suc v)) n
unfolding fixed
pad_start-many v f n h =
    pad_start-last (suc v) (48 + n % 10) (decimal_fuel f (n / 10))
    ∙ ap (λ t. t ++ ((48 + n % 10) ∷ [])) h

pad_start-decimal :
    (w fuel n : ℕ)
    → n < fuel
    → n < power_of_ten (suc w)
    → pad_start (suc w) (decimal_fuel fuel n) ≡ fixed (suc w) n
unfolding decimal_fuel power_of_ten
pad_start-decimal w zero n h k = absurd (omega arith)
pad_start-decimal zero (suc f) n h k =
    rw (lt→ltb n 10 (ground arith)) (pad_start-digit 0 n (ground arith))
pad_start-decimal (suc v) (suc f) n h k = elim (Bool-cases (ltb n 10)) [
  | inl c ↦ rw c (pad_start-digit (suc v) n (ltb→lt n 10 c))
  | inr c ↦
      rw c (pad_start-many v f n (pad_start-decimal v f (n / 10) (ground arith) (ground arith)))
]

power_13 : (n : ℕ) → n < 10_000_000_000_000 → n < power_of_ten 13
unfolding power_of_ten
power_13 n h = h

chrono_prefix-fixed : (n : ℕ) → n < 10_000_000_000_000 → chrono_prefix n ≡ fixed 13 n
unfolding chrono_prefix decimal
chrono_prefix-fixed n h = pad_start-decimal 12 (suc n) n (omega arith) (power_13 n h)

append_nil : (t : Text) → t ++ [] ≡ t
append_nil [] = refl
append_nil (c ∷ t) = ap (◌∷◌ c) (append_nil t)

trichotomy : (a b : ℕ) → (a < b) ⊎ (a ≡ b) ⊎ (b < a)
trichotomy a b = ground arith

not_below : (a b : ℕ) → b ≤ a → ltb a b ≡ false
not_below a b h = ground arith

nothing_below : (t : Text) → text_lt t [] ≡ false
unfolding text_lt
nothing_below [] = refl
nothing_below (c ∷ t) = refl

fixed-ordered :
    (w a b : ℕ) (u : Text)
    → a < power_of_ten w
    → b < power_of_ten w
    → text_lt (fixed w a ++ u) (fixed w b) ≡ ltb a b
fixed-ordered w a b u h k = elim (trichotomy a b) [
  | inl c ↦
      ap (text_lt (fixed w a ++ u)) (sym (append_nil (fixed w b)))
      ∙ text_lt-append (fixed w a) (fixed w b) u [] (length-fixed w a ∙ sym (length-fixed w b))
          (fixed-text_lt w a b c k)
      ∙ sym (lt→ltb a b c)
  | inr (inl e) ↦
      ap (λ z. text_lt (fixed w a ++ u) (fixed w z)) (sym e)
      ∙ ap (text_lt (fixed w a ++ u)) (sym (append_nil (fixed w a)))
      ∙ text_lt-cancel (fixed w a) u []
      ∙ nothing_below u
      ∙ sym (not_below a b (omega arith))
  | inr (inr c) ↦
      text_lt-asym (fixed w b) (fixed w a) u (length-fixed w b ∙ sym (length-fixed w a))
        (fixed-text_lt w b a c h)
      ∙ sym (not_below a b (omega arith))
]

-- For times of up to 13 digits, which reach the year 2286, an index key made of a time and any
-- identifier lies below the boundary of another time exactly if its time does.
pub chrono_prefix-ordered :
    (a b : ℕ) (id : Text)
    → a < 10_000_000_000_000
    → b < 10_000_000_000_000
    → text_lt (chrono_prefix a ++ (codes "#" ++ id)) (chrono_prefix b) ≡ ltb a b
chrono_prefix-ordered a b id h k =
    rw (chrono_prefix-fixed a h, chrono_prefix-fixed b k)
      (fixed-ordered 13 a b (35 ∷ id) (power_13 a h) (power_13 b k))
