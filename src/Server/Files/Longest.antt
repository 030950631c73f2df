-- ===== src/Server/Files/Longest.antt =====
-- About `frontend_match` of src/engine/server/files.rs.
use fastrapi.Prelude.{
  ◌≡◌, subst, ◌⊎◌, ◌≤◌, Bool-cases, none, some, Option-cases, inl, inr, List, [], ◌∷◌, All, leb,
  arith,
}
use fastrapi.Text.{Str, len}
use fastrapi.Server.Files.{FrontendMount, under_mount, frontend_match}

-- A mount that the path lies under has a path that is at most as long.
pub record NoLonger (request_path : Str) (best : FrontendMount) (mount : FrontendMount)
    : Type 0 where
  pub bounded :
      (found : FrontendMount × Str)
      → under_mount request_path mount ≡ some found
      → len found.0.path ≤ len best.path

-- The result is what one of the mounts gives.
abbrev pub IsOneOf : Str → FrontendMount × Str → List FrontendMount → Type 0
IsOneOf request_path found [] = ⊥
IsOneOf request_path found (mount ∷ mounts) =
    (under_mount request_path mount ≡ some found) ⊎ IsOneOf request_path found mounts

frontend_match-none :
    (mounts : List FrontendMount) (request_path : Str) (other : FrontendMount)
    → frontend_match mounts request_path ≡ none
    → All (NoLonger request_path other) mounts
unfolding frontend_match
frontend_match-none [] request_path other e = tt
frontend_match-none (mount ∷ mounts) request_path other e =
    elim (Option-cases (under_mount request_path mount)) [
      | inl n ↦ (
        record { bounded = λ f g. ground arith },
        frontend_match-none mounts request_path other (ground arith),
      )
      | inr (f, g) ↦ ground arith
    ]

weaken :
    (request_path : Str) (a b : FrontendMount) (mounts : List FrontendMount)
    → len a.path ≤ len b.path
    → All (NoLonger request_path a) mounts
    → All (NoLonger request_path b) mounts
weaken request_path a b [] h k = tt
weaken request_path a b (mount ∷ mounts) h (p, k) = (
  record { bounded = λ f g. omega (arith, p.bounded f g, h) },
  weaken request_path a b mounts h k,
)

-- `frontend_match` gives what one of the mounts that the path lies under gives, and no mount that
-- the path lies under has a longer path.
pub frontend_match-longest :
    (mounts : List FrontendMount) (request_path : Str) (found : FrontendMount × Str)
    → frontend_match mounts request_path ≡ some found
    → IsOneOf request_path found mounts × All (NoLonger request_path found.0) mounts
unfolding frontend_match
frontend_match-longest [] request_path found e = ground arith
frontend_match-longest (mount ∷ mounts) request_path found e =
    elim (Option-cases (under_mount request_path mount)) [
      | inl n ↦
          let rest = frontend_match-longest mounts request_path found (ground arith) in
          (inr rest.0, (record { bounded = λ f g. ground arith }, rest.1))
      | inr (here, h) ↦ elim (Option-cases (frontend_match mounts request_path)) [
        | inl n ↦ (
          inl (ground arith),
          (
            record { bounded = λ f g. ground arith },
            frontend_match-none mounts request_path found.0 n,
          ),
        )
        | inr (best, b) ↦
            let rest = frontend_match-longest mounts request_path best b in
            elim (Bool-cases (leb (len here.0.path) (len best.0.path))) [
              | inl later ↦
                  subst
                    (λ r.
                      IsOneOf request_path r (mount ∷ mounts)
                      × All (NoLonger request_path r.0) (mount ∷ mounts))
                    (ground arith) (inr rest.0, (record { bounded = λ f g. ground arith }, rest.1))
              | inr first ↦
                  subst
                    (λ r.
                      IsOneOf request_path r (mount ∷ mounts)
                      × All (NoLonger request_path r.0) (mount ∷ mounts))
                    (ground arith)
                    (
                      inl h,
                      (
                        record { bounded = λ f g. ground arith },
                        weaken request_path best.0 here.0 mounts (ground arith) rest.1,
                      ),
                    )
            ]
      ]
    ]
