-- ===== src/Server/RateLimit/Recovery.antt =====
-- About `is_rate_limited` of src/engine/server/rate_limit.rs, over the calls of all clients.
use fastrapi.Prelude.{
  ◌≡◌, ap, ℕ, ◌+◌, ◌≤◌, ◌<◌, false, none, some, inl, inr, Bool-cases, Option, Option-cases, List,
  [], ◌∷◌, All, lookup, insert, lookup-insert, ◌==◌, unwrap_or, arith,
}
use fastrapi.Server.RateLimit.{
  RateLimitKey, RateLimitWindow, rate_limit_key, Limits, second, renewed, counted, is_rate_limited,
}
use fastrapi.Server.RateLimit.Window.{passed, first_call}

-- A call: whose it is, when, and under which limit.
pub record RateCall : Type 0 where
  pub key : RateLimitKey
  pub now : ℕ
  pub limit : ℕ

-- The windows after these calls.
unfoldable pub after : Limits → List RateCall → Limits
after limits [] = limits
after limits (call ∷ calls) = after (is_rate_limited limits call.key call.now call.limit).1 calls

-- The call is made at the time t at the latest.
abbrev pub IsBy : ℕ → RateCall → Type 0
IsBy t call = call.now ≤ t

abbrev StartsBy : ℕ → Option RateLimitWindow → Type 0
StartsBy t none = Unit
StartsBy t (some w) = w.start ≤ t

-- Each window begins at the time t at the latest.
abbrev AllStartBy : ℕ → Limits → Type 0
AllStartBy t limits = (key : RateLimitKey) → StartsBy t (lookup key limits)

StartsBy-some :
    (t : ℕ) (o : Option RateLimitWindow) (w : RateLimitWindow)
    → StartsBy t o
    → o ≡ some w
    → w.start ≤ t
StartsBy-some t none w s e = ground arith
StartsBy-some t (some v) w s e = ground arith

bucket-start :
    (t now : ℕ) (o : Option RateLimitWindow)
    → now ≤ t
    → StartsBy t o
    → (unwrap_or o (record { start = now; count = 0 })).start ≤ t
bucket-start t now none h s = h
bucket-start t now (some w) h s = s

counted-start :
    (t now limit : ℕ) (w : RateLimitWindow)
    → now ≤ t
    → w.start ≤ t
    → (counted limit (renewed now w)).1.start ≤ t
counted-start t now limit w h s = ground arith

StartsBy-insert :
    (t : ℕ) (limits : Limits) (key : RateLimitKey) (w : RateLimitWindow)
    → w.start ≤ t
    → AllStartBy t limits
    → AllStartBy t (insert key w limits)
StartsBy-insert t limits key w h s other =
    rw (lookup-insert key other w limits) (elim (Bool-cases (rate_limit_key.beq key other)) [
      | inl same ↦ rw same h
      | inr differ ↦ rw differ (s other)
    ])

is_rate_limited-AllStartBy :
    (t : ℕ) (limits : Limits) (key : RateLimitKey) (now limit : ℕ)
    → now ≤ t
    → AllStartBy t limits
    → AllStartBy t (is_rate_limited limits key now limit).1
unfolding is_rate_limited
is_rate_limited-AllStartBy t limits key now limit h s = elim (Bool-cases (limit == 0)) [
  | inl closed ↦ rw closed s
  | inr counting ↦ rw counting (
      StartsBy-insert t limits key _
        (counted-start t now limit _ h (bucket-start t now (lookup key limits) h (s key))) s)
]

after-AllStartBy :
    (t : ℕ) (limits : Limits) (calls : List RateCall)
    → All (IsBy t) calls
    → AllStartBy t limits
    → AllStartBy t (after limits calls)
unfolding after
after-AllStartBy t limits [] h s = s
after-AllStartBy t limits (call ∷ calls) (a, h) s =
    after-AllStartBy t (is_rate_limited limits call.key call.now call.limit).1 calls h
      (is_rate_limited-AllStartBy t limits call.key call.now call.limit a s)

-- A window that is old enough counts from 0 again.
recovered :
    (t now limit : ℕ) (w : RateLimitWindow)
    → 0 < limit
    → t + second ≤ now
    → w.start ≤ t
    → (renewed now w).count < limit
recovered t now limit w l h s = ground arith

admitted_later :
    (t now limit : ℕ) (limits : Limits) (key : RateLimitKey)
    → 0 < limit
    → t + second ≤ now
    → AllStartBy t limits
    → (is_rate_limited limits key now limit).0 ≡ false
admitted_later t now limit limits key l h s = elim (Option-cases (lookup key limits)) [
  | inl e ↦ ap (λ r. r.0) (first_call limits key now limit l e)
  | inr (w, e) ↦
      ap (λ r. r.0)
        (passed limits key limit now w l e
          (recovered t now limit w l h (StartsBy-some t (lookup key limits) w (s key) e)))
]

initially : (t : ℕ) → AllStartBy t []
unfolding lookup
initially t key = tt

-- From a start with no window, whatever calls any clients made by the time t, under whatever
-- limits and in whatever order, a request a second or more after t is admitted, with any key and
-- any limit above 0.
pub is_rate_limited-after :
    (t now limit : ℕ) (calls : List RateCall) (key : RateLimitKey)
    → 0 < limit
    → All (IsBy t) calls
    → t + second ≤ now
    → (is_rate_limited (after [] calls) key now limit).0 ≡ false
is_rate_limited-after t now limit calls key l b h =
    admitted_later t now limit _ key l h (after-AllStartBy t [] calls b (initially t))
