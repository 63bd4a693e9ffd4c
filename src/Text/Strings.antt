-- ===== src/Text/Strings.antt =====
-- Go's strings as lists of bytes: HasPrefix, TrimPrefix, TrimSpace of ASCII texts, and Split at one
-- byte.
use Prim.Native.Char.{code}
use webhook_broker.Base.{
  ℕ, String, Bool, true, false, ◌&&◌, ◌||◌, ◌==◌, leb, if◌then◌else◌, List, [], ◌∷◌, ◌++◌, All, ◌≡◌,
  refl, arith,
}

abbrev pub Bytes : Type 0
Bytes = List ℕ

-- The bytes of an ASCII text.
abbrev pub codes : String → Bytes
codes String.[] = []
codes (String.◌∷◌ c s) = code c ∷ codes s

abbrev pub comma : ℕ
comma = b','

unfoldable pub bytes_eq : Bytes → Bytes → Bool
bytes_eq [] [] = true
bytes_eq [] (d ∷ ds) = false
bytes_eq (c ∷ cs) [] = false
bytes_eq (c ∷ cs) (d ∷ ds) = c == d && bytes_eq cs ds

pub bytes_eq_refl : (s : Bytes) → bytes_eq s s ≡ true
unfolding bytes_eq
bytes_eq_refl [] = refl
bytes_eq_refl (c ∷ cs) = ground (arith, bytes_eq_refl cs)

pub eq_of_bytes_eq : (s t : Bytes) → bytes_eq s t ≡ true → s ≡ t
unfolding bytes_eq
eq_of_bytes_eq [] [] h = refl
eq_of_bytes_eq [] (d ∷ ds) h = absurd (ground arith)
eq_of_bytes_eq (c ∷ cs) [] h = absurd (ground arith)
eq_of_bytes_eq (c ∷ cs) (d ∷ ds) h = ground (arith, eq_of_bytes_eq cs ds)

unfoldable pub has_prefix : Bytes → Bytes → Bool
has_prefix s [] = true
has_prefix [] (p ∷ ps) = false
has_prefix (c ∷ cs) (p ∷ ps) = c == p && has_prefix cs ps

-- The text without a prefix that it has.
unfoldable pub trim_prefix : Bytes → Bytes → Bytes
unfolding has_prefix
trim_prefix s [] = s
trim_prefix [] (p ∷ ps) = []
trim_prefix (c ∷ cs) (p ∷ ps) =
    let rest = trim_prefix cs ps in if c == p && has_prefix cs ps then rest else c ∷ cs

-- \t \n \v \f \r and the space.
unfoldable pub is_space : ℕ → Bool
is_space c = (leb 9 c && leb c 13) || c == 32

unfoldable pub trim_left : Bytes → Bytes
unfolding is_space
trim_left [] = []
trim_left (c ∷ cs) = let rest = trim_left cs in if is_space c then rest else c ∷ cs

abbrev pub cut_space : ℕ → Bytes → Bytes
cut_space c [] = if is_space c then [] else c ∷ []
cut_space c (d ∷ ds) = c ∷ d ∷ ds

unfoldable pub trim_right : Bytes → Bytes
trim_right [] = []
trim_right (c ∷ cs) = cut_space c (trim_right cs)

unfoldable pub trim_space : Bytes → Bytes
unfolding trim_left trim_right
trim_space s = trim_right (trim_left s)

abbrev pub cons_first : ℕ → List Bytes → List Bytes
cons_first c [] = (c ∷ []) ∷ []
cons_first c (p ∷ ps) = (c ∷ p) ∷ ps

unfoldable pub split : ℕ → Bytes → List Bytes
split sep [] = [] ∷ []
split sep (c ∷ cs) = let rest = split sep cs in if c == sep then [] ∷ rest else cons_first c rest

-- Neither the separator nor a space.
abbrev pub Clear : ℕ → Type 0
Clear c = ((c == comma) ≡ false) × (is_space c ≡ false)

abbrev pub ClearText : Bytes → Type 0
ClearText s = All Clear s

-- A text without a byte.
abbrev pub Without : ℕ → Bytes → Type 0
Without sep s = All (λ c. (c == sep) ≡ false) s

pub split-Without : (sep : ℕ) (s : Bytes) → Without sep s → split sep s ≡ s ∷ []
unfolding split
split-Without sep [] h = refl
split-Without sep (c ∷ cs) h = rw (h.0, split-Without sep cs h.1) refl

pub split-append :
    (sep : ℕ) (s t : Bytes) → Without sep s → split sep (s ++ sep ∷ t) ≡ s ∷ split sep t
unfolding split
split-append sep [] t h = let same : (sep == sep) ≡ true = ground arith in rw same refl
split-append sep (c ∷ cs) t h = rw (h.0, split-append sep cs t h.1) refl

pub ClearText-Without : (s : Bytes) → ClearText s → Without comma s
ClearText-Without [] h = tt
ClearText-Without (c ∷ cs) h = (h.0.0, ClearText-Without cs h.1)

trim_left_clear : (s : Bytes) → ClearText s → trim_left s ≡ s
unfolding trim_left
trim_left_clear [] h = refl
trim_left_clear (c ∷ cs) h = rw h.0.1 refl

trim_right_clear : (s : Bytes) → ClearText s → trim_right s ≡ s
unfolding trim_right
trim_right_clear [] h = refl
trim_right_clear (c ∷ []) h = rw h.0.1 refl
trim_right_clear (c ∷ d ∷ ds) h = rw (trim_right_clear (d ∷ ds) h.1) refl

pub trim_space_clear : (s : Bytes) → ClearText s → trim_space s ≡ s
unfolding trim_space
trim_space_clear s h = rw (trim_left_clear s h, trim_right_clear s h) refl
