-- ===== src/Routing/Dependencies/Invariant.antt =====
-- The invariant of the state of src/routing/dependencies.rs while a plan is built.
use fastrapi.Prelude.{
  ◌≡◌, refl, subst, ℕ, suc, ◌<◌, ◌≤◌, ◌+◌, Bool, true, false, Bool-cases, none, some, inl, inr,
  List, [], ◌∷◌, ◌++◌, if◌then◌else◌, length, pop, All, Assoc, lookup, insert, arith,
}
use fastrapi.Text.{Str, str_eq}
use fastrapi.Text.Laws.{nat_key}
use fastrapi.Python.{PyRef, ok, err}
use fastrapi.Routing.Types.{InjectionType, DependencyNode}
use fastrapi.Routing.Dependencies.{Flow, ◌>>=◌, State, SubDeps, find_dep}

-- Where a computation returns, its result satisfies P.
pub record Ensures {A : Type 0} (P : A → Type 0) (r : Flow A) : Type 0 where
  pub ensured : (a : A) → r ≡ some (ok a) → P a

pub cast : {A : Type 0} (P : A → Type 0) (a b : A) → a ≡ b → P a → P b
cast P a b e p = subst P e p

pub Ensures-ok : {A : Type 0} (P : A → Type 0) (a : A) → P a → Ensures P (some (ok a))
Ensures-ok P a p = record { ensured = λ b h. subst P (ground arith) p }

pub Ensures-bind :
    {A B : Type 0} (P : A → Type 0) (Q : B → Type 0) (r : Flow A) (f : A → Flow B)
    → Ensures P r
    → ((a : A) → P a → Ensures Q (f a))
    → Ensures Q (r >>= f)
Ensures-bind P Q none f h k = record { ensured = λ a e. ground arith }
Ensures-bind P Q (some (err x)) f h k = record { ensured = λ a e. ground arith }
Ensures-bind P Q (some (ok a)) f h k = k a (h.ensured a refl)

-- The injection takes no result of an index that is not below n.
abbrev pub IsBelow : ℕ → InjectionType → Type 0
IsBelow n (InjectionType.dependency i) = i < n
IsBelow n _ = Unit

abbrev pub ArgIsBelow : ℕ → Str × InjectionType → Type 0
ArgIsBelow n arg = IsBelow n arg.1

-- The nodes stand at the indices from n on, and each takes results of earlier ones only.
abbrev pub OrderedFrom : ℕ → List DependencyNode → Type 0
OrderedFrom n [] = Unit
OrderedFrom n (node ∷ nodes) = All (ArgIsBelow n) node.injection_plan × OrderedFrom (suc n) nodes

abbrev pub VisitedBelow : ℕ → Assoc PyRef ℕ → Type 0
VisitedBelow n visited = All (λ entry. entry.1 < n) visited

abbrev pub SubBelow : ℕ → SubDeps → Type 0
SubBelow n sub_deps = All (λ entry. entry.1 < n) sub_deps

pub record IsValid (state : State) : Type 0 where
  pub ordered : OrderedFrom 0 state.flat_plan
  pub known : VisitedBelow (length state.flat_plan) state.visited

-- What a call gives, from a state with n nodes.
pub record IsResult (n : ℕ) (result : ℕ × State) : Type 0 where
  pub valid : IsValid result.1
  pub index_below : result.0 < length result.1.flat_plan
  pub longer : n ≤ length result.1.flat_plan

pub record IsLooped (n : ℕ) (result : SubDeps × State) : Type 0 where
  pub valid : IsValid result.1
  pub subs_below : SubBelow (length result.1.flat_plan) result.0
  pub longer : n ≤ length result.1.flat_plan

pub weaken :
    {A : Type 0} (n m : ℕ)
    → n ≤ m
    → (xs : List (A × ℕ)) → All (λ e. e.1 < n) xs
    → All (λ e. e.1 < m) xs
weaken n m h [] k = tt
weaken n m h (x ∷ xs) (p, k) = (omega arith, weaken n m h xs k)

pub lookup-below :
    (n : ℕ) (key : PyRef) (i : ℕ) (visited : Assoc PyRef ℕ)
    → VisitedBelow n visited
    → lookup key visited ≡ some i
    → i < n
unfolding lookup
lookup-below n key i [] h e = ground arith
lookup-below n key i ((k, j) ∷ visited) (p, h) e = elim (Bool-cases (nat_key.beq k key)) [
  | inl b ↦ ground arith
  | inr b ↦ lookup-below n key i visited h (ground arith)
]

pub insert-below :
    (n : ℕ) (key : PyRef) (i : ℕ) (visited : Assoc PyRef ℕ)
    → VisitedBelow n visited
    → i < n
    → VisitedBelow n (insert key i visited)
unfolding insert
insert-below n key i [] h p = (p, tt)
insert-below n key i ((k, j) ∷ visited) (q, h) p = elim (Bool-cases (nat_key.beq k key)) [
  | inl b ↦ rw b (p, h)
  | inr b ↦ rw b (q, insert-below n key i visited h p)
]

pub ordered-push :
    (n : ℕ) (nodes : List DependencyNode) (node : DependencyNode)
    → OrderedFrom n nodes
    → All (ArgIsBelow (n + length nodes)) node.injection_plan
    → OrderedFrom n (nodes ++ node ∷ [])
ordered-push n [] node h k =
    (subst (λ m. All (ArgIsBelow m) node.injection_plan) (omega arith) k, tt)
ordered-push n (x ∷ nodes) node (p, h) k = (
  p,
  ordered-push (suc n) nodes node h
      (subst (λ m. All (ArgIsBelow m) node.injection_plan) (omega arith) k),
)

pub ordered-pop :
    (n : ℕ) (nodes : List DependencyNode) → OrderedFrom n nodes → OrderedFrom n (pop nodes)
ordered-pop n [] h = tt
ordered-pop n (x ∷ []) h = tt
ordered-pop n (x ∷ y ∷ nodes) (p, h) = (p, ordered-pop (suc n) (y ∷ nodes) h)

pub find_dep-below :
    (n : ℕ) (name : Str) (i : ℕ) (subs : SubDeps)
    → SubBelow n subs
    → find_dep name subs ≡ some i
    → i < n
unfolding find_dep
find_dep-below n name i [] h e = ground arith
find_dep-below n name i ((m, j) ∷ subs) (p, h) e = elim (Bool-cases (str_eq m name)) [
  | inl b ↦ ground arith
  | inr b ↦ find_dep-below n name i subs h (ground arith)
]

pub known-push :
    (b : Bool) (n : ℕ) (key : PyRef) (i : ℕ) (visited : Assoc PyRef ℕ)
    → VisitedBelow n visited
    → i < n
    → VisitedBelow n (if b then insert key i visited else visited)
known-push true n key i visited h p = insert-below n key i visited h p
known-push false n key i visited h p = h
