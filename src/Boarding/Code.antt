-- ===== src/Boarding/Code.antt =====
-- backend/internal/boarding/code.go. A string stands as its characters. `rand.Read` and the
-- character mapping of `strings.ToUpper` are the libraries'.
use sesfikile.Base.{
  ℕ, ◌%◌, Bool, true, false, ◌≡◌, refl, ap, ◌∙◌, Option, none, some, List, [], ◌∷◌, map, length,
  get_elem?, ◌==◌, ◌||◌, if◌then◌else◌, any, zero, suc, arith,
}
use sesfikile.Base.Text.{Text, bytes}

abbrev pub crockford_alphabet : Text
crockford_alphabet = bytes "0123456789ABCDEFGHJKMNPQRSTVWXYZ"

abbrev pub code_length : ℕ
code_length = 8

abbrev some_char : Option ℕ → ℕ
some_char none = 0
some_char (some c) = c

-- The index is below the alphabet's length.
abbrev pub letter : ℕ → ℕ
letter b = some_char (get_elem? crockford_alphabet (b % 32))

-- `buf` is what `rand.Read` fills in, if it does not fail.
unfoldable pub generate_code : Option (List ℕ) → Option Text
generate_code none = none
generate_code (some buf) = some (map letter buf)

abbrev pub is_separator : ℕ → Bool
is_separator c = c == 45 || c == 32 || c == 9 || c == 10 || c == 13

unfoldable pub without_separators : Text → Text
without_separators [] = []
without_separators (c ∷ s) =
    if is_separator c then without_separators s else c ∷ without_separators s

length-map : (f : ℕ → ℕ) (xs : List ℕ) → length (map f xs) ≡ length xs
length-map f [] = refl
length-map f (x ∷ xs) = omega (arith, length-map f xs)

any-false_at :
    (p : ℕ → Bool) (xs : Text) (n : ℕ)
    → p 0 ≡ false
    → any p xs ≡ false
    → p (some_char (get_elem? xs n)) ≡ false
any-false_at p [] n z h = z
any-false_at p (x ∷ xs) zero z h = ground arith
any-false_at p (x ∷ xs) (suc n) z h = any-false_at p xs n z (ground arith)

-- No letter of a code is dropped.
letter_stays : (b : ℕ) → is_separator (letter b) ≡ false
letter_stays b = any-false_at is_separator crockford_alphabet (b % 32) refl refl

module _ (to_upper : ℕ → ℕ) where
  unfoldable pub normalize_code : Text → Text
  normalize_code input = map to_upper (without_separators input)

  -- An ASCII digit or capital letter is its own capital.
  abbrev pub KeepsCapitals : Type 0
  KeepsCapitals = (b : ℕ) → to_upper (letter b) ≡ letter b

  letters_kept : (buf : List ℕ) → KeepsCapitals → normalize_code (map letter buf) ≡ map letter buf
  unfolding normalize_code without_separators
  letters_kept [] k = refl
  letters_kept (b ∷ buf) k =
      rw (letter_stays b, k b) (ap (λ (s : Text). letter b ∷ s) (letters_kept buf k))

  -- `typed` is a way to type `code`: each character is one whose capital is the code's, such as
  -- its small letter, with any separators before, between and behind them.
  pub data IsTyped : (typed code : Text) → Type 0 where
    finished : IsTyped [] []
    separated :
        {typed code : Text} (c : ℕ)
        → is_separator c ≡ true
        → IsTyped typed code
        → IsTyped (c ∷ typed) code
    typed_as :
        {typed code : Text} (c x : ℕ)
        → is_separator c ≡ false
        → to_upper c ≡ x
        → IsTyped typed code
        → IsTyped (c ∷ typed) (x ∷ code)

  IsTyped-normalize_code : {typed code : Text} → IsTyped typed code → normalize_code typed ≡ code
  unfolding normalize_code without_separators
  IsTyped-normalize_code finished = refl
  IsTyped-normalize_code (separated c h t) = rw h (IsTyped-normalize_code t)
  IsTyped-normalize_code (typed_as c x h u t) =
      rw (h, u) (ap (λ (s : Text). x ∷ s) (IsTyped-normalize_code t))

  -- A code that was generated from 8 random bytes has 8 characters. For a character mapping that
  -- keeps the digits and capital letters of the alphabet, the code is its own normal form, and so
  -- it is of the code typed with any separators at any places, and with any characters whose
  -- capitals are the code's.
  pub generate_code-normalize_code :
      (buf : List ℕ) (typed code : Text)
      → KeepsCapitals
      → length buf ≡ code_length
      → generate_code (some buf) ≡ some code
      → IsTyped typed code
      → (length code ≡ code_length) × (normalize_code code ≡ code) × (normalize_code typed ≡ code)
  unfolding generate_code
  generate_code-normalize_code buf typed code k long e t =
      let same : map letter buf ≡ code = ap value e in
      (
        rw (← same) (length-map letter buf ∙ long),
        rw (← same) (letters_kept buf k),
        IsTyped-normalize_code t,
      )
    where
      value : Option Text → Text
      value none = []
      value (some s) = s
