-- ===== src/Python.antt =====
-- What crosses the border to Python: values, exceptions, and the outcome of a call, `PyResult`.
use fastrapi.Prelude.{ℕ, Bool}
use fastrapi.Text.{Str}

-- A reference to a Python object, `Py<PyAny>`, is its address.
abbrev pub PyRef : Type 0
PyRef = ℕ

-- An `f64` is its IEEE 754 bit pattern.
abbrev pub F64 : Type 0
F64 = ℕ

-- `negsuc n` is -(n + 1).
pub data ℤ : Type 0 where
  pos negsuc : ℕ → ℤ

-- The values that the program makes or looks into; any other is an `object`.
pub data PyValue : Type 0 where
  none_value : PyValue
  bool : Bool → PyValue
  int : ℤ → PyValue
  float : F64 → PyValue
  str : Str → PyValue
  object : PyRef → PyValue

pub data PyErr : Type 0 where
  runtime_error : Str → PyErr
  value_error : Str → PyErr
  -- an exception that Python code raised
  exception : PyRef → PyErr

pub data PyResult {ℓ} (A : Type ℓ) : Type ℓ where
  ok : A → PyResult A
  err : PyErr → PyResult A

infixl 5 ◌>>=◌
-- `?` on a `PyResult`.
abbrev pub ◌>>=◌ {ℓ κ} : {A : Type ℓ} {B : Type κ} → PyResult A → (A → PyResult B) → PyResult B
ok a >>= f = f a
err e >>= f = err e
