-- ===== src/Text/Laws.antt =====
-- Laws of the text functions.
use fastrapi.Prelude.{
  ℕ, ◌≡◌, refl, ◌↔◌, true, false, ◌||◌, some, arith, [], ◌∷◌, ◌++◌, ==_iff, ◌==◌, Eq,
}
use fastrapi.Text.{Str, str_eq, contains_char, replace_char, split, split_once}

str_eq_sound : (s t : Str) → str_eq s t ≡ true → s ≡ t
unfolding str_eq
str_eq_sound [] [] h = refl
str_eq_sound (c ∷ s) (d ∷ t) h = ground (arith, str_eq_sound s t)
str_eq_sound _ _ h = ground arith

pub str_eq_refl : (s : Str) → str_eq s s ≡ true
unfolding str_eq
str_eq_refl [] = refl
str_eq_refl (c ∷ s) = rw ((==_iff c c).1 refl) (str_eq_refl s)

pub str_eq_iff : (s t : Str) → (str_eq s t ≡ true) ↔ (s ≡ t)
str_eq_iff s t = (str_eq_sound s t, λ h. rw h (str_eq_refl t))

instance abbrev pub str_key : Eq Str
str_key = record { beq = str_eq; beq_iff = str_eq_iff }

instance abbrev pub nat_key : Eq ℕ
nat_key = record { beq = ◌==◌; beq_iff = ==_iff }

pub contains_char-append :
    (a b : Str) (x : ℕ) → contains_char (a ++ b) x ≡ (contains_char a x || contains_char b x)
unfolding contains_char
contains_char-append [] b x = refl
contains_char-append (c ∷ a) b x = ground (arith, contains_char-append a b x)

pub replace_char_absent : (s : Str) (x y : ℕ) → contains_char s x ≡ false → replace_char s x y ≡ s
unfolding contains_char replace_char
replace_char_absent [] x y h = refl
replace_char_absent (c ∷ s) x y h = ground (arith, replace_char_absent s x y)

pub split_absent : (s : Str) (x : ℕ) → contains_char s x ≡ false → split s x ≡ s ∷ []
unfolding contains_char split
split_absent [] x h = refl
split_absent (c ∷ s) x h = ground (arith, split_absent s x)

-- The first part ends at the first separator.
pub split-append :
    (a s : Str) (x : ℕ) → contains_char a x ≡ false → split (a ++ x ∷ s) x ≡ a ∷ split s x
unfolding contains_char split
split-append [] s x h = ground (arith, ==_iff x x)
split-append (c ∷ a) s x h = ground (arith, split-append a s x)

pub split_once-append :
    (a s : Str) (x : ℕ) → contains_char a x ≡ false → split_once (a ++ x ∷ s) x ≡ some (a, s)
unfolding contains_char split_once
split_once-append [] s x h = ground (arith, ==_iff x x)
split_once-append (c ∷ a) s x h = ground (arith, split_once-append a s x)
