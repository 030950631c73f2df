-- ===== src/Routing/Paths/Braces.antt =====
-- About the scan for braces in `normalize_register` (src/routing/router.rs).
use fastrapi.Prelude.{
  ℕ, ◌≡◌, ◌≢◌, refl, Bool, true, false, ◌||◌, List, [], ◌∷◌, ◌++◌, arith, any, All,
}
use fastrapi.Text.{Str}
use fastrapi.Routing.Paths.{scan_braces}

-- A path template: characters and parameters.
pub data Piece : Type 0 where
  char : ℕ → Piece
  param : Str → Piece

abbrev pub is_param : Piece → Bool
is_param (char c) = false
is_param (param name) = true

-- The path that a template stands for.
abbrev pub render : List Piece → Str
render [] = []
render (char c ∷ pieces) = c ∷ render pieces
render (param name ∷ pieces) = b'{' ∷ (name ++ b'}' ∷ render pieces)

abbrev pub IsPlainChar : ℕ → Type 0
IsPlainChar c = (c ≢ b'{') × (c ≢ b'}')

abbrev pub IsPlainPiece : Piece → Type 0
IsPlainPiece (char c) = IsPlainChar c
IsPlainPiece (param name) = All IsPlainChar name

-- What may follow a closing brace.
abbrev NoClose : Str → Type 0
NoClose [] = Unit
NoClose (c ∷ s) = c ≢ b'}'

render-NoClose : (pieces : List Piece) → All IsPlainPiece pieces → NoClose (render pieces)
render-NoClose [] h = tt
render-NoClose (char c ∷ pieces) h = h.0.1
render-NoClose (param name ∷ pieces) h = omega arith

scan_name :
    (has : Bool) (name rest : Str)
    → All IsPlainChar name
    → NoClose rest
    → scan_braces has true (name ++ b'}' ∷ rest) ≡ scan_braces has false rest
unfolding scan_braces
scan_name has [] [] h k = ground arith
scan_name has [] (c ∷ s) h k = ground arith
scan_name has (c ∷ []) rest h k = ground (arith, scan_name has [] rest)
scan_name has (c ∷ d ∷ s) rest h k = ground (arith, scan_name has (d ∷ s) rest)

scan_open :
    (has : Bool) (name rest : Str)
    → All IsPlainChar name
    → scan_braces has false (b'{' ∷ (name ++ b'}' ∷ rest))
      ≡ scan_braces true true (name ++ b'}' ∷ rest)
unfolding scan_braces
scan_open has [] rest h = refl
scan_open has (c ∷ s) rest h = ground arith

scan_char :
    (has : Bool) (c : ℕ) (s : Str)
    → IsPlainChar c
    → scan_braces has false (c ∷ s) ≡ scan_braces has false s
unfolding scan_braces
scan_char has c [] h = ground arith
scan_char has c (d ∷ s) h = ground arith

scan_pieces :
    (has : Bool) (pieces : List Piece)
    → All IsPlainPiece pieces
    → scan_braces has false (render pieces) ≡ (has || any is_param pieces)
unfolding scan_braces
scan_pieces has [] h = ground arith
scan_pieces has (char c ∷ pieces) h =
    ground (arith, scan_char has c (render pieces), scan_pieces has pieces)
scan_pieces has (param name ∷ pieces) h = ground (
  arith,
  scan_open has name (render pieces),
  scan_name true name (render pieces) h.0 (render-NoClose pieces h.1),
  scan_pieces true pieces,
)

-- If no character and no parameter name of a template is a brace, the scan of its path answers
-- whether the template has a parameter.
pub scan_braces-render :
    (pieces : List Piece)
    → All IsPlainPiece pieces
    → scan_braces false false (render pieces) ≡ any is_param pieces
scan_braces-render pieces h = scan_pieces false pieces h
