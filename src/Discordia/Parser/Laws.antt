-- ===== src/Discordia/Parser/Laws.antt =====
-- What Discordia/src/console/parser.c relies on in the libraries: words joined by a separator are
-- split again, and a decimal number is read.
use tp_2021_1c_en_c_errados.Prelude.{
  ℕ, ◌+◌, ◌-◌, ◌*◌, ◌<◌, ◌≡◌, ◌≢◌, refl, ap, ◌∙◌, List, [], ◌∷◌, ◌++◌, true, false, All, ◌==◌,
  if◌then◌else◌, arith,
}
use tp_2021_1c_en_c_errados.Discordia.Parser.{Library, is_valid_number}

-- The number that digits write, behind the digits of `acc`.
unfoldable pub valor_desde : ℕ → List ℕ → ℕ
valor_desde acc [] = acc
valor_desde acc (c ∷ cs) = valor_desde (acc * 10 + (c - 48)) cs

abbrev pub valor : List ℕ → ℕ
valor s = valor_desde 0 s

-- A word has a character, and none that is the separator.
abbrev pub Word : ℕ → List ℕ → Type 0
Word separator w = (w ≢ []) × All (λ c. c ≢ separator) w

-- One or more words with the separator between them.
unfoldable pub joined : ℕ → List ℕ → List (List ℕ) → List ℕ
joined separator w [] = w
joined separator w (v ∷ vs) = w ++ separator ∷ joined separator v vs

pub record IsLibrary (lib : Library) : Type 0 where
  pub split :
      (separator : ℕ) (w : List ℕ) (ws : List (List ℕ))
      → Word separator w
      → All (Word separator) ws
      → lib.string_split (joined separator w ws) separator ≡ w ∷ ws
  pub decimal :
      (s : List ℕ) → is_valid_number s ≡ true → valor s < 2147483648 → lib.atoi s ≡ valor s

-- A library with these laws.
abbrev before : ℕ → List (List ℕ) → List (List ℕ)
before c [] = (c ∷ []) ∷ []
before c (w ∷ ws) = (c ∷ w) ∷ ws

unfoldable pub split_at : List ℕ → ℕ → List (List ℕ)
split_at [] separator = [] ∷ []
split_at (c ∷ cs) separator =
    let rest = split_at cs separator in if c == separator then [] ∷ rest else before c rest

split_at-word :
    (separator : ℕ) (w : List ℕ) → All (λ c. c ≢ separator) w → split_at w separator ≡ w ∷ []
unfolding split_at
split_at-word separator [] h = refl
split_at-word separator (c ∷ cs) (ne, h) =
    let other : (c == separator) ≡ false = ground arith in
    rw other (ap (before c) (split_at-word separator cs h))

split_at-append :
    (separator : ℕ) (w rest : List ℕ)
    → All (λ c. c ≢ separator) w
    → split_at (w ++ separator ∷ rest) separator ≡ w ∷ split_at rest separator
unfolding split_at
split_at-append separator [] rest h =
    let same : (separator == separator) ≡ true = ground arith in rw same refl
split_at-append separator (c ∷ cs) rest (ne, h) =
    let other : (c == separator) ≡ false = ground arith in
    rw other (ap (before c) (split_at-append separator cs rest h))

split_at-joined :
    (separator : ℕ) (w : List ℕ) (ws : List (List ℕ))
    → Word separator w
    → All (Word separator) ws
    → split_at (joined separator w ws) separator ≡ w ∷ ws
unfolding joined
split_at-joined separator w [] (_, h) hs = split_at-word separator w h
split_at-joined separator w (v ∷ vs) (_, h) (k, hs) =
    split_at-append separator w (joined separator v vs) h
    ∙ ap (◌∷◌ w) (split_at-joined separator v vs k hs)

abbrev pub sample : Library
sample = record { string_split = split_at; atoi = valor_desde 0 }

pub sample-IsLibrary : IsLibrary sample
sample-IsLibrary = record { split = split_at-joined; decimal = λ s digits small. refl }
