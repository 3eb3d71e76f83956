-- ===== src/Discordia/Parser/Positions.antt =====
-- The positions that Discordia/src/console/parser.c accepts.
use tp_2021_1c_en_c_errados.Discordia.Parser.{
  espacio, get_elem?, barra, isdigit, is_valid_number, only_one_pipe, is_valid_position,
}
use tp_2021_1c_en_c_errados.Prelude.{
  some_injective, ℕ, ◌≡◌, ◌≢◌, ◌⊎◌, inl, inr, ◌↔◌, refl, ap, ◌∙◌, List, [], ◌∷◌, ◌++◌, true, false,
  All, ◌==◌, arith, Bool-cases,
}
use tp_2021_1c_en_c_errados.Discordia.Parser.Laws.{Word}

-- Digits, or digits with one bar among them.
abbrev pub HasPipe : List ℕ → Type 0
HasPipe s =
    (x : List ℕ) × (y : List ℕ) × (s ≡ x ++ barra ∷ y)
    × (is_valid_number x ≡ true)
    × (is_valid_number y ≡ true)

only_one_pipe_found : (s : List ℕ) → only_one_pipe true s ≡ is_valid_number s
unfolding only_one_pipe is_valid_number
only_one_pipe_found [] = refl
only_one_pipe_found (c ∷ cs) = ground (arith, only_one_pipe_found cs)

only_one_pipe_some :
    (s : List ℕ) → only_one_pipe false s ≡ true → (is_valid_number s ≡ true) ⊎ HasPipe s
unfolding only_one_pipe is_valid_number
only_one_pipe_some [] h = inl refl
only_one_pipe_some (c ∷ cs) h = elim (Bool-cases (c == barra)) [
  | inl e ↦
      inr ([], cs, ap (λ d. d ∷ cs) (ground arith), refl, ground (arith, only_one_pipe_found cs))
  | inr e ↦ elim (only_one_pipe_some cs (ground arith)) [
    | inl digits ↦ inl (ground arith)
    | inr (x, y, same, dx, dy) ↦ inr (c ∷ x, y, ap (◌∷◌ c) same, ground arith, dy)
  ]
]

only_one_pipe_digits : (s : List ℕ) → is_valid_number s ≡ true → only_one_pipe false s ≡ true
unfolding only_one_pipe is_valid_number
only_one_pipe_digits [] h = refl
only_one_pipe_digits (c ∷ cs) h = let rest = only_one_pipe_digits cs (ground arith) in ground arith

only_one_pipe_pair :
    (x y : List ℕ)
    → is_valid_number x ≡ true
    → is_valid_number y ≡ true
    → only_one_pipe false (x ++ barra ∷ y) ≡ true
unfolding only_one_pipe is_valid_number
only_one_pipe_pair [] y dx dy = only_one_pipe_found y ∙ dy
only_one_pipe_pair (c ∷ cs) y dx dy =
    let rest = only_one_pipe_pair cs y (ground arith) dy in ground arith

-- A number, or two with a bar between them of which the second may be empty.
abbrev pub Number : List ℕ → Type 0
Number s = (s ≢ []) × (is_valid_number s ≡ true)

abbrev pub Pair : List ℕ → Type 0
Pair s = (x : List ℕ) × (y : List ℕ) × (s ≡ x ++ barra ∷ y) × Number x × (is_valid_number y ≡ true)

no_pipe_first : (c : ℕ) (cs : List ℕ) → isdigit c ≡ true → HasPipe (c ∷ cs) → Pair (c ∷ cs)
no_pipe_first c cs d ([], y, same, dx, dy) =
    let e : c ≡ barra = some_injective (ap (λ l. get_elem? l 0) same) in absurd (ground arith)
no_pipe_first c cs d (x ∷ xs, y, same, dx, dy) = (x ∷ xs, y, same, ((λ e. cc), dx), dy)

pub Number-valid : (s : List ℕ) → Number s → is_valid_position s ≡ true
unfolding is_valid_position is_valid_number
Number-valid [] (some_char, digits) = absurd (some_char refl)
Number-valid (c ∷ cs) (some_char, digits) =
    let first : isdigit c ≡ true = ground arith in rw first (only_one_pipe_digits (c ∷ cs) digits)

pub Pair-valid :
    (x y : List ℕ) → Number x → is_valid_number y ≡ true → is_valid_position (x ++ barra ∷ y) ≡ true
unfolding is_valid_position is_valid_number
Pair-valid [] y (some_char, dx) dy = absurd (some_char refl)
Pair-valid (c ∷ cs) y (some_char, dx) dy =
    let first : isdigit c ≡ true = ground arith in rw first (only_one_pipe_pair (c ∷ cs) y dx dy)

valid-cases : (s : List ℕ) → is_valid_position s ≡ true → Number s ⊎ Pair s
unfolding is_valid_position
valid-cases [] h = cc
valid-cases (c ∷ cs) h =
    let first : isdigit c ≡ true = ground arith in
    let loop : only_one_pipe false (c ∷ cs) ≡ true = ground arith in
    elim (only_one_pipe_some (c ∷ cs) loop) [
      | inl digits ↦ inl ((λ e. cc), digits)
      | inr p ↦ inr (no_pipe_first c cs first p)
    ]

-- A text is taken for a position exactly when it is a number, or two numbers with a bar between them
-- of which the second may be empty.
pub is_valid_position_iff : (s : List ℕ) → (is_valid_position s ≡ true) ↔ (Number s ⊎ Pair s)
is_valid_position_iff s = (
  valid-cases s,
  λ h. elim h [
    | inl n ↦ Number-valid s n
    | inr (x, y, same, nx, dy) ↦ rw same (Pair-valid x y nx dy)
  ],
)

-- Digits are neither spaces nor bars.
pub digits-Word :
    (separator : ℕ) (s : List ℕ)
    → (separator ≡ espacio) ⊎ (separator ≡ barra)
    → Number s
    → Word separator s
unfolding is_valid_number
digits-Word separator s other (some_char, digits) = (some_char, avoid s digits)
  where
    avoid : (s : List ℕ) → is_valid_number s ≡ true → All (λ c. c ≢ separator) s
    avoid [] h = tt
    avoid (c ∷ cs) h = ((λ e. ground arith), avoid cs (ground arith))
