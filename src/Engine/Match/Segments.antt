-- ===== src/Engine/Match/Segments.antt =====
-- What `matchesPathPattern` decides, over the segments of the two paths.
use faultline.Common.{
  ℕ, zero, suc, ◌+◌, ◌<◌, Bool, true, false, not, ◌&&◌, some, List, [], ◌∷◌, Text, nat_eq, text_eq,
  is_nil, length, arith, if◌then◌else◌, ◌≡◌, ◌≢◌, refl, ◌↔◌, inl, inr, Bool-cases, text_beq_iff,
}
use faultline.Common.Strings.{codes, has_prefix, cut, split}
use faultline.Engine.Match.{fits_segment, pattern_loop, matches_path_pattern}

-- The pattern's segment is a parameter and the path's is not empty, or they are the same text.
pub data Fits : Text → Text → Type 0 where
  parameter : {want got : Text} → has_prefix want (codes ":") ≡ true → got ≢ [] → Fits want got
  literal : {want got : Text} → has_prefix want (codes ":") ≡ false → want ≡ got → Fits want got

-- As many segments on both sides, and each fits.
pub data AllFit : List Text → List Text → Type 0 where
  end : AllFit [] []
  next : {w g : Text} {ws gs : List Text} → Fits w g → AllFit ws gs → AllFit (w ∷ ws) (g ∷ gs)

-- The test as a function of the two lists.
all_fit : List Text → List Text → Bool
all_fit [] [] = true
all_fit [] (g ∷ gs) = false
all_fit (w ∷ ws) [] = false
all_fit (w ∷ ws) (g ∷ gs) = fits_segment w g && all_fit ws gs

split-cut :
    (b : ℕ) (s : Text) → split b s ≡ (cut b s).0 ∷ (if (cut b s).2 then split b (cut b s).1 else [])
unfolding split cut
split-cut b [] = refl
split-cut b (c ∷ cs) = ground (arith, split-cut b cs)

cut_shorter : (b : ℕ) (s : Text) → (cut b s).2 ≡ true → length (cut b s).1 < length s
unfolding cut
cut_shorter b [] h = cc
cut_shorter b (c ∷ cs) h = ground (arith, cut_shorter b cs)

pattern_loop-all_fit :
    (fuel : ℕ) (pattern path : Text)
    → length pattern < fuel
    → pattern_loop fuel pattern path ≡ some (all_fit (split b'/' pattern) (split b'/' path))
unfolding pattern_loop all_fit
pattern_loop-all_fit zero pattern path h = absurd (omega arith)
pattern_loop-all_fit (suc fuel) pattern path h = ground (
  arith,
  split-cut b'/' pattern,
  split-cut b'/' path,
  split-cut b'/' (cut b'/' pattern).1,
  split-cut b'/' (cut b'/' path).1,
  cut_shorter b'/' pattern,
  pattern_loop-all_fit fuel (cut b'/' pattern).1 (cut b'/' path).1,
)

is_nil-ne-nil : (s : Text) → (not (is_nil s) ≡ true) ↔ (s ≢ [])
is_nil-ne-nil [] = ground arith
is_nil-ne-nil (c ∷ cs) = ((λ _ e. cc), λ _. refl)

fits_segment-Fits : (want got : Text) → fits_segment want got ≡ true → Fits want got
unfolding fits_segment
fits_segment-Fits want got h = elim (Bool-cases (has_prefix want (codes ":"))) [
  | inl p ↦ parameter p ((is_nil-ne-nil got).0 (ground arith))
  | inr n ↦ literal n ((text_beq_iff want got).0 (ground arith))
]

Fits-fits_segment : {want got : Text} → Fits want got → fits_segment want got ≡ true
unfolding fits_segment
Fits-fits_segment (parameter {got} p h) = rw p ((is_nil-ne-nil got).1 h)
Fits-fits_segment (literal {want} {got} n e) = rw n ((text_beq_iff want got).1 e)

all_fit-AllFit : (ws gs : List Text) → all_fit ws gs ≡ true → AllFit ws gs
unfolding all_fit
all_fit-AllFit [] [] h = end
all_fit-AllFit [] (g ∷ gs) h = cc
all_fit-AllFit (w ∷ ws) [] h = cc
all_fit-AllFit (w ∷ ws) (g ∷ gs) h =
    next (fits_segment-Fits w g (ground arith)) (all_fit-AllFit ws gs (ground arith))

AllFit-all_fit : {ws gs : List Text} → AllFit ws gs → all_fit ws gs ≡ true
unfolding all_fit
AllFit-all_fit end = refl
AllFit-all_fit (next {w} {g} {ws} {gs} f r) = ground (arith, Fits-fits_segment f, AllFit-all_fit r)

-- The loop always ends with an answer, and the answer is whether the segments of the path fit those
-- of the pattern one by one.
pub matches_path_pattern-AllFit :
    (pattern path : Text)
    → (b : Bool) × (matches_path_pattern pattern path ≡ some b)
      × ((b ≡ true) ↔ AllFit (split b'/' pattern) (split b'/' path))
unfolding matches_path_pattern
matches_path_pattern-AllFit pattern path = (
  all_fit (split b'/' pattern) (split b'/' path),
  pattern_loop-all_fit (length pattern + 1) pattern path (omega arith),
  (all_fit-AllFit _ _, AllFit-all_fit),
)
