-- ===== src/Routing/Paths/Join.antt =====
-- About `join_path` of src/ffi/decorators/routing.rs.
use fastrapi.Prelude.{
  ◌≡◌, refl, ap, append_assoc, true, false, not, [], ◌∷◌, ◌++◌, arith, pop, ◌==◌, if◌then◌else◌,
  ◌⊎◌, inl, inr, Bool-cases,
}
use fastrapi.Text.{Str, starts_with_char, ends_with_char}
use fastrapi.Routing.Paths.{join_path}

-- The text without a slash at its end, or at its start.
unfoldable pub without_last_slash : Str → Str
without_last_slash [] = []
without_last_slash (c ∷ []) = if c == b'/' then [] else c ∷ []
without_last_slash (c ∷ d ∷ s) = c ∷ without_last_slash (d ∷ s)

unfoldable pub without_first_slash : Str → Str
without_first_slash [] = []
without_first_slash (c ∷ s) = if c == b'/' then s else c ∷ s

pop_of_ends : (a s : Str) → ends_with_char a b'/' ≡ true → pop a ++ s ≡ without_last_slash a ++ s
unfolding ends_with_char without_last_slash
pop_of_ends [] s h = refl
pop_of_ends (c ∷ []) s h = ground arith
pop_of_ends (c ∷ d ∷ a) s h = ap (λ t. c ∷ t) (pop_of_ends (d ∷ a) s h)

append_of_ends :
    (a s : Str) → ends_with_char a b'/' ≡ true → a ++ s ≡ without_last_slash a ++ b'/' ∷ s
unfolding ends_with_char without_last_slash
append_of_ends [] s h = ground arith
append_of_ends (c ∷ []) s h = ground arith
append_of_ends (c ∷ d ∷ a) s h = ap (λ t. c ∷ t) (append_of_ends (d ∷ a) s h)

without_last_slash_of_not_ends :
    (a s : Str) → ends_with_char a b'/' ≡ false → a ++ s ≡ without_last_slash a ++ s
unfolding ends_with_char without_last_slash
without_last_slash_of_not_ends [] s h = refl
without_last_slash_of_not_ends (c ∷ []) s h = ground arith
without_last_slash_of_not_ends (c ∷ d ∷ a) s h =
    ap (λ t. c ∷ t) (without_last_slash_of_not_ends (d ∷ a) s h)

-- For all paths `a` and `b`, `join_path a b` is `a` without one slash at its end, one slash, and `b`
-- without one slash at its start.
pub join_path_one_slash :
    (a b : Str) → join_path a b ≡ without_last_slash a ++ b'/' ∷ without_first_slash b
unfolding join_path without_first_slash
join_path_one_slash a b = elim (Bool-cases (ends_with_char a b'/')) [
  | inl e ↦ rw e (ends b e)
  | inr e ↦ rw e (plain b e)
]
  where
    ends :
        (b : Str)
        → ends_with_char a b'/' ≡ true
        → (if starts_with_char b b'/' then pop a ++ b else a ++ b)
          ≡ without_last_slash a ++ b'/' ∷ without_first_slash b
    ends [] e = append_of_ends a [] e
    ends (c ∷ s) e = ground (arith, append_of_ends a (c ∷ s) e, pop_of_ends a (c ∷ s) e)

    plain :
        (b : Str)
        → ends_with_char a b'/' ≡ false
        → (if not (starts_with_char b b'/') then a ++ b'/' ∷ b else a ++ b)
          ≡ without_last_slash a ++ b'/' ∷ without_first_slash b
    plain [] e = without_last_slash_of_not_ends a (b'/' ∷ []) e
    plain (c ∷ s) e = ground (
      arith,
      without_last_slash_of_not_ends a (c ∷ s) e,
      without_last_slash_of_not_ends a (b'/' ∷ c ∷ s) e,
    )

-- A slash and the text, but nothing for the empty text.
middle : Str → Str
middle [] = []
middle (c ∷ s) = b'/' ∷ without_last_slash (c ∷ s)

last-append : (a r : Str) → without_last_slash (a ++ b'/' ∷ r) ≡ a ++ middle r
unfolding without_last_slash middle
last-append [] [] = refl
last-append [] (c ∷ r) = refl
last-append (d ∷ []) r = ap (λ t. d ∷ t) (last-append [] r)
last-append (d ∷ e ∷ a) r = ap (λ t. d ∷ t) (last-append (e ∷ a) r)

first-append :
    (b t : Str)
    → b'/' ∷ without_first_slash (without_last_slash b ++ b'/' ∷ t)
      ≡ middle (without_first_slash b) ++ b'/' ∷ t
unfolding without_last_slash without_first_slash middle
first-append [] t = refl
first-append (c ∷ []) t = elim (Bool-cases (c == b'/')) [ inl e ↦ rw e | inr e ↦ simp e ]
first-append (c ∷ d ∷ s) t = elim (Bool-cases (c == b'/')) [ inl e ↦ rw e | inr e ↦ rw e ]

-- Nested prefixes join in any order: `join_path` is associative.
pub join_path_assoc : (a b c : Str) → join_path (join_path a b) c ≡ join_path a (join_path b c)
join_path_assoc a b c = simp (join_path_one_slash, last-append, first-append, append_assoc)

-- A path that is empty or begins with a slash still begins with one when a slash is put behind it.
pub starts-append_slash :
    (a s : Str)
    → (a ≡ []) ⊎ (starts_with_char a b'/' ≡ true)
    → starts_with_char (without_last_slash a ++ b'/' ∷ s) b'/' ≡ true
unfolding starts_with_char without_last_slash
starts-append_slash [] s h = refl
starts-append_slash (c ∷ []) s h = ground arith
starts-append_slash (c ∷ d ∷ a) s h = ground arith
