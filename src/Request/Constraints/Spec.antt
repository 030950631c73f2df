-- ===== src/Request/Constraints/Spec.antt =====
-- About `validate_scalar_constraints` of src/ffi/pydantic.rs.
use fastrapi.Prelude.{
  ℕ, ◌≡◌, ◌↔◌, refl, sym, Bool, true, false, not, Option, none, some, arith, ltb, leb,
}
use fastrapi.Text.{Str, len}
use fastrapi.Python.{F64, PyValue}
use fastrapi.Http.{Outcome, ok, fail}
use fastrapi.Routing.Types.{ParameterConstraints, ParsedParameter}
use fastrapi.Request.Constraints.{
  is_nan, is_negative, magnitude, number_lt, f64_lt, f64_le, Extraction, check, ◌>>◌, check_gt,
  check_ge, check_lt, check_le, check_number, check_min_length, check_max_length, check_pattern,
  check_text, validate_scalar_constraints,
}

-- What holds of the bound, if it is given.
abbrev pub Given {ℓ} : {A : Type ℓ} → Option A → (A → Type 0) → Type 0
Given none P = Unit
Given (some bound) P = P bound

pub record IsWithin (constraints : ParameterConstraints) (number : F64) : Type 0 where
  pub above : Given constraints.gt (λ gt. f64_lt gt number ≡ true)
  pub at_least : Given constraints.ge (λ ge. f64_le ge number ≡ true)
  pub below : Given constraints.lt (λ lt. f64_lt number lt ≡ true)
  pub at_most : Given constraints.le (λ le. f64_le number le ≡ true)

pub record HasShape (is_match : Str → Str → Bool) (constraints : ParameterConstraints) (text : Str)
    : Type 0 where
  pub min_length : Given constraints.min_length (λ n. leb n (len text) ≡ true)
  pub max_length : Given constraints.max_length (λ n. leb (len text) n ≡ true)
  pub pattern : Given constraints.pattern (λ p. is_match p text ≡ true)

-- No bound is not-a-number.
pub record HasNumberBounds (constraints : ParameterConstraints) : Type 0 where
  pub gt : Given constraints.gt (λ b. is_nan b ≡ false)
  pub ge : Given constraints.ge (λ b. is_nan b ≡ false)
  pub lt : Given constraints.lt (λ b. is_nan b ≡ false)
  pub le : Given constraints.le (λ b. is_nan b ≡ false)

not-not : (b : Bool) → not (not b) ≡ b
not-not true = refl
not-not false = refl

-- On numbers, `<` is the negation of `<=` the other way round.
f64_lt-not_le : (x y : F64) → is_nan x ≡ false → is_nan y ≡ false → f64_lt x y ≡ not (f64_le y x)
unfolding f64_lt f64_le
f64_lt-not_le x y h k =
    rw (h, k)
      (sym (not-not (number_lt (is_negative x) (is_negative y) (magnitude x) (magnitude y))))

f64_le-not_lt : (x y : F64) → is_nan x ≡ false → is_nan y ≡ false → f64_le x y ≡ not (f64_lt y x)
unfolding f64_lt f64_le
f64_le-not_lt x y h k = rw (h, k)

then_iff : (m k : Outcome (Unit {0})) → ((m >> k) ≡ ok tt) ↔ ((m ≡ ok tt) × (k ≡ ok tt))
then_iff (ok tt) k = (λ h. (refl, h), λ h. h.1)
then_iff (fail r) k = (λ h. cc, λ h. cc h.0)

-- A check passes exactly if what is asked of its bound holds.
check_given :
    {A : Type 0} (o : Option A) (violated wanted : A → Bool) (message : A → Str)
    → Given o (λ b. wanted b ≡ not (violated b))
    → (check o violated message ≡ ok tt) ↔ Given o (λ b. wanted b ≡ true)
check_given none violated wanted message e = (λ _. tt, λ _. refl)
check_given (some b) violated wanted message e = (λ h. ground arith, λ h. ground arith)

Given-all : {A : Type 0} {P : A → Type 0} (o : Option A) → ((a : A) → P a) → Given o P
Given-all none f = tt
Given-all (some a) f = f a

Given-map :
    {A : Type 0} {P Q : A → Type 0} (o : Option A) → ((a : A) → P a → Q a) → Given o P → Given o Q
Given-map none f h = tt
Given-map (some a) f h = f a h

f64_le_nan_left : (x y : F64) → is_nan x ≡ true → f64_le x y ≡ false
unfolding f64_le
f64_le_nan_left x y h = rw h

f64_le_nan_right : (x y : F64) → is_nan y ≡ true → f64_le x y ≡ false
unfolding f64_le
f64_le_nan_right x y h = ground arith

f64_lt_nan_left : (x y : F64) → is_nan x ≡ true → f64_lt x y ≡ false
unfolding f64_lt
f64_lt_nan_left x y h = rw h

f64_lt_nan_right : (x y : F64) → is_nan y ≡ true → f64_lt x y ≡ false
unfolding f64_lt
f64_lt_nan_right x y h = ground arith

check_nan :
    {A : Type 0} (o : Option A) (violated : A → Bool) (message : A → Str)
    → ((b : A) → violated b ≡ false)
    → check o violated message ≡ ok tt
check_nan none violated message h = refl
check_nan (some b) violated message h = rw (h b)

leb_of_not-ltb : (a b : ℕ) → leb b a ≡ not (ltb a b)
leb_of_not-ltb a b = ground arith

module _ (extraction : Extraction) (name : Str) (constraints : ParameterConstraints) where
  module _ (number : F64) (b : HasNumberBounds constraints) (h : is_nan number ≡ false) where
    gt_iff :
        (check_gt extraction name constraints number ≡ ok tt)
        ↔ Given constraints.gt (λ gt. f64_lt gt number ≡ true)
    gt_iff =
        check_given constraints.gt _ (λ gt. f64_lt gt number) _
          (Given-map constraints.gt (λ gt n. f64_lt-not_le gt number n h) b.gt)

    ge_iff :
        (check_ge extraction name constraints number ≡ ok tt)
        ↔ Given constraints.ge (λ ge. f64_le ge number ≡ true)
    ge_iff =
        check_given constraints.ge _ (λ ge. f64_le ge number) _
          (Given-map constraints.ge (λ ge n. f64_le-not_lt ge number n h) b.ge)

    lt_iff :
        (check_lt extraction name constraints number ≡ ok tt)
        ↔ Given constraints.lt (λ lt. f64_lt number lt ≡ true)
    lt_iff =
        check_given constraints.lt _ (λ lt. f64_lt number lt) _
          (Given-map constraints.lt (λ lt n. f64_lt-not_le number lt h n) b.lt)

    le_iff :
        (check_le extraction name constraints number ≡ ok tt)
        ↔ Given constraints.le (λ le. f64_le number le ≡ true)
    le_iff =
        check_given constraints.le _ (λ le. f64_le number le) _
          (Given-map constraints.le (λ le n. f64_le-not_lt number le h n) b.le)

    check_number_iff :
        (check_number extraction name constraints (some number) ≡ ok tt)
        ↔ IsWithin constraints number
    unfolding check_number
    check_number_iff =
        let gt = check_gt extraction name constraints number in
        let ge = check_ge extraction name constraints number in
        let lt = check_lt extraction name constraints number in
        let le = check_le extraction name constraints number in
        (
          λ e.
              let (e₁, f₁) = (then_iff gt (ge >> (lt >> le))).0 e in
              let (e₂, f₂) = (then_iff ge (lt >> le)).0 f₁ in
              let (e₃, e₄) = (then_iff lt le).0 f₂ in
              record {
                above = gt_iff.0 e₁;
                at_least = ge_iff.0 e₂;
                below = lt_iff.0 e₃;
                at_most = le_iff.0 e₄;
              },
          λ w. (then_iff gt (ge >> (lt >> le))).1 (
            gt_iff.1 w.above,
            (then_iff ge (lt >> le)).1
                (ge_iff.1 w.at_least, (then_iff lt le).1 (lt_iff.1 w.below, le_iff.1 w.at_most)),
          ),
        )

  module _ (text : Str) where
    min_length_iff :
        (check_min_length extraction name constraints text ≡ ok tt)
        ↔ Given constraints.min_length (λ n. leb n (len text) ≡ true)
    min_length_iff =
        check_given constraints.min_length _ (λ n. leb n (len text)) _
          (Given-all constraints.min_length (λ n. leb_of_not-ltb (len text) n))

    max_length_iff :
        (check_max_length extraction name constraints text ≡ ok tt)
        ↔ Given constraints.max_length (λ n. leb (len text) n ≡ true)
    max_length_iff =
        check_given constraints.max_length _ (λ n. leb (len text) n) _
          (Given-all constraints.max_length (λ n. leb_of_not-ltb n (len text)))

    pattern_iff :
        (check_pattern extraction name constraints text ≡ ok tt)
        ↔ Given constraints.pattern (λ p. extraction.is_match p text ≡ true)
    pattern_iff =
        check_given constraints.pattern _ (λ p. extraction.is_match p text) _
          (Given-all constraints.pattern (λ p. sym (not-not (extraction.is_match p text))))

    check_text_iff :
        (check_text extraction name constraints (some text) ≡ ok tt)
        ↔ HasShape extraction.is_match constraints text
    unfolding check_text
    check_text_iff =
        let lo = check_min_length extraction name constraints text in
        let hi = check_max_length extraction name constraints text in
        let re = check_pattern extraction name constraints text in
        (
          λ e.
              let (e₁, f₁) = (then_iff lo (hi >> re)).0 e in
              let (e₂, e₃) = (then_iff hi re).0 f₁ in
              record {
                min_length = min_length_iff.0 e₁;
                max_length = max_length_iff.0 e₂;
                pattern = pattern_iff.0 e₃;
              },
          λ w. (then_iff lo (hi >> re)).1 (
            min_length_iff.1 w.min_length,
            (then_iff hi re).1 (max_length_iff.1 w.max_length, pattern_iff.1 w.pattern),
          ),
        )

  number_part :
      (o : Option F64)
      → HasNumberBounds constraints
      → Given o (λ number. is_nan number ≡ false)
      → (check_number extraction name constraints o ≡ ok tt) ↔ Given o (IsWithin constraints)
  unfolding check_number
  number_part none b h = (λ _. tt, λ _. refl)
  number_part (some number) b h = check_number_iff number b h

  text_part :
      (o : Option Str)
      → (check_text extraction name constraints o ≡ ok tt)
        ↔ Given o (HasShape extraction.is_match constraints)
  unfolding check_text
  text_part none = (λ _. tt, λ _. refl)
  text_part (some text) = check_text_iff text

  check_number_nan :
      (number : F64)
      → is_nan number ≡ true
      → check_number extraction name constraints (some number) ≡ ok tt
  unfolding check_number f64_lt f64_le
  check_number_nan number h = rw (check_nan constraints.gt _ _ (λ b. f64_le_nan_left number b h)) (
      rw (check_nan constraints.ge _ _ (λ b. f64_lt_nan_left number b h)) (
        rw (check_nan constraints.lt _ _ (λ b. f64_le_nan_right b number h))
          (check_nan constraints.le _ _ (λ b. f64_lt_nan_right b number h))))

-- `validate_scalar_constraints` passes a value exactly if the number that it extracts to, if it does,
-- lies within all the bounds that are given, and the text that it extracts to, if it does, has the
-- lengths (in bytes) that are given and matches the pattern; provided that neither the number nor a
-- bound is not-a-number.
pub validate_scalar_constraints_iff :
    (extraction : Extraction) (param : ParsedParameter) (value : PyValue)
    → HasNumberBounds param.constraints
    → Given (extraction.extract_f64 value) (λ number. is_nan number ≡ false)
    → (validate_scalar_constraints extraction param value ≡ ok tt) ↔ (
        Given (extraction.extract_f64 value) (IsWithin param.constraints)
        × Given (extraction.extract_string value) (HasShape extraction.is_match param.constraints))
unfolding validate_scalar_constraints
validate_scalar_constraints_iff extraction param value b h =
    let number =
      check_number extraction param.external_name param.constraints
        (extraction.extract_f64 value) in
    let text =
      check_text extraction param.external_name param.constraints
        (extraction.extract_string value) in
    let on_number =
      number_part extraction param.external_name param.constraints (extraction.extract_f64 value) b
        h in
    let on_text =
      text_part extraction param.external_name param.constraints
        (extraction.extract_string value) in
    (
      λ e. let (n, t) = (then_iff number text).0 e in (on_number.0 n, on_text.0 t),
      λ w. (then_iff number text).1 (on_number.1 w.0, on_text.1 w.1),
    )

-- A value that extracts to not-a-number, and to no text, passes whatever bounds are given: each
-- comparison with it is false, so none of the violations is found.
pub validate_scalar_constraints_nan :
    (extraction : Extraction) (param : ParsedParameter) (value : PyValue) (number : F64)
    → extraction.extract_f64 value ≡ some number
    → is_nan number ≡ true
    → extraction.extract_string value ≡ none
    → validate_scalar_constraints extraction param value ≡ ok tt
unfolding validate_scalar_constraints
validate_scalar_constraints_nan extraction param value number e n t =
    rw (e, t) (rw (check_number_nan extraction param.external_name param.constraints number n) refl)
