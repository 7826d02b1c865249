-- ===== src/Text/Cstring.antt =====
-- C strings: what `strlen`, `strrchr` and `strstr` see of a byte array.
use vorsprung_logger.Base.{
  ℕ, suc, ◌≡◌, refl, ◌≢◌, Bool, true, false, ◌==◌, ◌&&◌, if◌then◌else◌, List, [], ◌∷◌, ◌++◌, Option,
  none, some, length, All, arith,
}
use mathlib.Core.Option

-- The bytes before the first NUL.
unfoldable pub upto_nul : List ℕ → List ℕ
upto_nul [] = []
upto_nul (c ∷ cs) = if c == 0 then [] else c ∷ upto_nul cs

-- `strrchr`: the index of the last `c`.
unfoldable pub last_index : ℕ → List ℕ → Option ℕ
last_index c [] = none
last_index c (x ∷ xs) = elim (last_index c xs) [
  | some i ↦ some (suc i)
  | none ↦ if x == c then some 0 else none
]

-- `strchr`: the index of the first `c`.
unfoldable pub first_index : ℕ → List ℕ → Option ℕ
first_index c [] = none
first_index c (x ∷ xs) =
    let later = Option.map (λ i. suc i) (first_index c xs) in if x == c then some 0 else later

-- No byte of the text is `c`.
abbrev pub Lacks : ℕ → List ℕ → Type 0
Lacks c = All (λ x. x ≢ c)

pub upto_nul-append : (xs ys : List ℕ) → Lacks 0 xs → upto_nul (xs ++ 0 ∷ ys) ≡ xs
unfolding upto_nul
upto_nul-append [] ys h = refl
upto_nul-append (x ∷ xs) ys h = ground (arith, upto_nul-append xs ys h.1)

last_index-Lacks : (c : ℕ) (xs : List ℕ) → Lacks c xs → last_index c xs ≡ none
unfolding last_index
last_index-Lacks c [] h = refl
last_index-Lacks c (x ∷ xs) h = ground (arith, last_index-Lacks c xs h.1)

pub last_index-append :
    (c : ℕ) (xs ys : List ℕ) → Lacks c ys → last_index c (xs ++ c ∷ ys) ≡ some (length xs)
unfolding last_index
last_index-append c [] ys h = ground (arith, last_index-Lacks c ys h)
last_index-append c (x ∷ xs) ys h = ground (arith, last_index-append c xs ys h)

abbrev pub starts_with : List ℕ → List ℕ → Bool
starts_with [] cs = true
starts_with (p ∷ ps) [] = false
starts_with (p ∷ ps) (c ∷ cs) = c == p && starts_with ps cs

-- `strstr`: the text from the first occurrence of `pattern` on.
unfoldable pub find : List ℕ → List ℕ → Option (List ℕ)
find pattern [] = if starts_with pattern [] then some [] else none
find pattern (c ∷ cs) =
    let later = find pattern cs in if starts_with pattern (c ∷ cs) then some (c ∷ cs) else later
