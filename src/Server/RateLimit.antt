-- ===== src/Server/RateLimit.antt =====
-- src/engine/server/rate_limit.rs.
-- The map `RATE_LIMITS` is passed on; an address is a number, and a time a number of nanoseconds,
-- which the two readings of the clock in a call share.
pub mod Window
pub mod Recovery
use fastrapi.Prelude.{
  ◌≡◌, ◌↔◌, refl, ℕ, suc, ◌+◌, ◌-◌, Bool, true, false, ◌&&◌, Option, none, some, List, [], ◌∷◌,
  Assoc, Eq, lookup, insert, leb, ◌==◌, if◌then◌else◌, unwrap_or, arith,
}

pub record RateLimitKey : Type 0 where
  pub handler : ℕ
  pub ip : Option ℕ

pub record RateLimitWindow : Type 0 where
  pub start : ℕ
  pub count : ℕ

abbrev pub ip_eq : Option ℕ → Option ℕ → Bool
ip_eq none none = true
ip_eq none (some b) = false
ip_eq (some a) none = false
ip_eq (some a) (some b) = a == b

ip_eq_iff : (a b : Option ℕ) → (ip_eq a b ≡ true) ↔ (a ≡ b)
ip_eq_iff none none = (λ h. refl, λ h. refl)
ip_eq_iff none (some b) = (λ h. ground arith, λ h. ground arith)
ip_eq_iff (some a) none = (λ h. ground arith, λ h. ground arith)
ip_eq_iff (some a) (some b) = (λ h. ground arith, λ h. ground arith)

pub key_eq_iff : (a b : RateLimitKey) → (a.handler == b.handler && ip_eq a.ip b.ip ≡ true) ↔ (a ≡ b)
key_eq_iff a b =
    (λ h. ground (arith, ip_eq_iff a.ip b.ip), λ h. ground (arith, ip_eq_iff a.ip b.ip))

instance abbrev pub rate_limit_key : Eq RateLimitKey
rate_limit_key = record {
  beq = λ a b. a.handler == b.handler && ip_eq a.ip b.ip;
  beq_iff = key_eq_iff;
}

abbrev pub Limits : Type 0
Limits = Assoc RateLimitKey RateLimitWindow

abbrev pub second : ℕ
second = 1000000000

-- A window that is a second old starts again.
abbrev pub renewed : ℕ → RateLimitWindow → RateLimitWindow
renewed now window =
    if leb second (now - window.start) then record { start = now; count = 0 } else window

-- Whether the request is limited, and the window afterwards.
abbrev pub counted : ℕ → RateLimitWindow → Bool × RateLimitWindow
counted limit window =
    if leb limit window.count
    then (true, window)
    else (false, record window { count = suc window.count })

unfoldable pub is_rate_limited : Limits → RateLimitKey → ℕ → ℕ → Bool × Limits
unfolding lookup insert
is_rate_limited limits key now limit =
    let bucket = unwrap_or (lookup key limits) (record { start = now; count = 0 }) in
    let (limited, window) = counted limit (renewed now bucket) in
    if limit == 0 then (true, limits) else (limited, insert key window limits)
