-- ===== src/Routing/Params/Names.antt =====
-- About `extract_path_param_names` of src/routing/params.rs.
use fastrapi.Prelude.{
  ◌≡◌, refl, ap, ◌∙◌, none, some, List, [], ◌∷◌, ◌++◌, arith, All, append_assoc, append-nil,
}
use fastrapi.Text.{Str}
use fastrapi.Routing.Paths.Braces.{Piece, char, param, render, IsPlainChar, IsPlainPiece}
use fastrapi.Routing.Params.{close, names_from, extract_path_param_names}

-- The names of the parameters of a template that are not empty.
abbrev pub param_names : List Piece → List Str
param_names [] = []
param_names (char c ∷ pieces) = param_names pieces
param_names (param name ∷ pieces) = close name (param_names pieces)

names_from_name :
    (seen name rest : Str)
    → All IsPlainChar name
    → names_from (some seen) (name ++ b'}' ∷ rest) ≡ close (seen ++ name) (names_from none rest)
unfolding names_from
names_from_name seen [] rest h = rw (append-nil seen)
names_from_name seen (c ∷ name) rest h =
    ground (arith, names_from_name (seen ++ c ∷ []) name rest, append_assoc seen (c ∷ []) name)

-- The names that are extracted from the path of a template without further braces are those of its
-- parameters, in their order.
pub extract_path_param_names-render :
    (pieces : List Piece)
    → All IsPlainPiece pieces
    → extract_path_param_names (render pieces) ≡ param_names pieces
unfolding extract_path_param_names
extract_path_param_names-render [] h = refl
extract_path_param_names-render (char c ∷ pieces) h =
    ground (arith, extract_path_param_names-render pieces)
extract_path_param_names-render (param name ∷ pieces) h =
    names_from_name [] name (render pieces) h.0
    ∙ ap (close name) (extract_path_param_names-render pieces h.1)
