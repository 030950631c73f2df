-- ===== src/Server/RateLimit/Window.antt =====
-- About `is_rate_limited` of src/engine/server/rate_limit.rs, over sequences of requests.
use fastrapi.Prelude.{
  ◌≡◌, refl, ◌∙◌, length, ℕ, suc, ◌+◌, ◌-◌, ◌≤◌, ◌<◌, Bool, true, false, none, some, inl, inr,
  Bool-cases, List, [], ◌∷◌, All, lookup, insert, lookup-insert, leb, ◌==◌, if◌then◌else◌,
  unwrap_or, arith,
}
use fastrapi.Server.RateLimit.{
  RateLimitKey, RateLimitWindow, rate_limit_key, Limits, second, renewed, counted, is_rate_limited,
}

-- How many of the requests with a key at these times are admitted.
unfoldable pub admitted : Limits → RateLimitKey → ℕ → List ℕ → ℕ
unfolding is_rate_limited
admitted limits key limit [] = 0
admitted limits key limit (now ∷ times) =
    let (limited, limits') = is_rate_limited limits key now limit in
    let rest = admitted limits' key limit times in if limited then rest else suc rest

-- The time lies in the second that starts at t.
abbrev pub IsInSecond : ℕ → ℕ → Type 0
IsInSecond t now = (t ≤ now) × (now < t + second)

abbrev pub at_most : ℕ → ℕ → ℕ
at_most bound n = if leb bound n then bound else n

unchanged : (t now : ℕ) (w : RateLimitWindow) → t ≤ w.start → IsInSecond t now → renewed now w ≡ w
unchanged t now w h (a, b) = ground arith

-- The window of the key after an insertion.
lookup_inserted :
    (key : RateLimitKey) (w : RateLimitWindow) (limits : Limits)
    → lookup key (insert key w limits) ≡ some w
lookup_inserted key w limits =
    ground (arith, lookup-insert key key w limits, rate_limit_key.beq_iff key key)

-- One call, on the window w of its key.
pub is_rate_limited_known :
    (limits : Limits) (key : RateLimitKey) (now limit : ℕ) (w : RateLimitWindow)
    → lookup key limits ≡ some w
    → is_rate_limited limits key now limit ≡ (
        if limit == 0 then (true, limits) else (
          (counted limit (renewed now w)).0,
          insert key (counted limit (renewed now w)).1 limits,
        ))
unfolding is_rate_limited
is_rate_limited_known limits key now limit w e = rw e refl

admitted_step :
    (limits limits' : Limits) (key : RateLimitKey) (limit now : ℕ) (times : List ℕ) (b : Bool)
    → is_rate_limited limits key now limit ≡ (b, limits')
    → admitted limits key limit (now ∷ times)
      ≡ (if b then admitted limits' key limit times else suc (admitted limits' key limit times))
unfolding admitted
admitted_step limits limits' key limit now times b e = rw e refl

-- One call, from the test of the count.
refused :
    (limits : Limits) (key : RateLimitKey) (limit now : ℕ) (w : RateLimitWindow)
    → 0 < limit
    → lookup key limits ≡ some w
    → limit ≤ (renewed now w).count
    → is_rate_limited limits key now limit ≡ (true, insert key (renewed now w) limits)
refused limits key limit now w l e h = is_rate_limited_known limits key now limit w e ∙ ground arith

pub passed :
    (limits : Limits) (key : RateLimitKey) (limit now : ℕ) (w : RateLimitWindow)
    → 0 < limit
    → lookup key limits ≡ some w
    → (renewed now w).count < limit
    → is_rate_limited limits key now limit ≡ (
      false,
      insert key
          (record { start = (renewed now w).start; count = suc (renewed now w).count })
          limits,
    )
passed limits key limit now w l e h = is_rate_limited_known limits key now limit w e ∙ ground arith

within :
    (t limit : ℕ) (limits : Limits) (key : RateLimitKey) (w : RateLimitWindow) (times : List ℕ)
    → 0 < limit
    → lookup key limits ≡ some w
    → t ≤ w.start
    → w.count ≤ limit
    → All (IsInSecond t) times
    → admitted limits key limit times ≡ at_most (limit - w.count) (length times)
unfolding admitted
within t limit limits key w [] l e s c h = ground arith
within t limit limits key w (now ∷ times) l e s c (a, h) = elim (Bool-cases (leb limit w.count)) [
  | inl full ↦
      rw
        (
          admitted_step limits _ key limit now times _
              (refused limits key limit now w l e (rw (unchanged t now w s a) (ground arith))),
          unchanged t now w s a,
        )
        (ground (
          arith,
          within t limit (insert key w limits) key w times l (lookup_inserted key w limits) s c h,
        ))
  | inr free ↦
      rw
        (
          admitted_step limits _ key limit now times _
              (passed limits key limit now w l e (rw (unchanged t now w s a) (ground arith))),
          unchanged t now w s a,
        )
        (ground (
          arith,
          within t limit (insert key (record { start = w.start; count = suc w.count }) limits) key
              (record { start = w.start; count = suc w.count }) times l
              (lookup_inserted key _ limits) s (ground arith) h,
        ))
]

-- Where the second may begin in an older window, that window and a new one are used up at most.
across :
    (t limit : ℕ) (limits : Limits) (key : RateLimitKey) (w : RateLimitWindow) (times : List ℕ)
    → 0 < limit
    → lookup key limits ≡ some w
    → w.count ≤ limit
    → All (IsInSecond t) times
    → admitted limits key limit times + w.count ≤ limit + limit
unfolding admitted
across t limit limits key w [] l e c h = omega (arith, c)
across t limit limits key w (now ∷ times) l e c (a, h) =
    elim (Bool-cases (leb second (now - w.start))) [
      | inl old ↦
          rw
            (admitted_step limits _ key limit now times _
              (passed limits key limit now w l e (rw old l)))
            (ground (
              arith,
              within t limit
                  (insert key
                    (record { start = (renewed now w).start; count = suc (renewed now w).count })
                    limits)
                  key (record { start = now; count = 1 }) times l
                  (rw old (lookup_inserted key _ limits)) a.0 (ground arith) h,
            ))
      | inr young ↦ elim (Bool-cases (leb limit w.count)) [
        | inl full ↦
            rw
              (
                admitted_step limits _ key limit now times _
                    (refused limits key limit now w l e (rw young (ground arith))),
                young,
              )
              (across t limit (insert key w limits) key w times l (lookup_inserted key w limits) c
                h)
        | inr free ↦
            rw
              (
                admitted_step limits _ key limit now times _
                    (passed limits key limit now w l e (rw young (ground arith))),
                young,
              )
              (ground (
                arith,
                across t limit (insert key (record { start = w.start; count = suc w.count }) limits)
                    key (record { start = w.start; count = suc w.count }) times l
                    (lookup_inserted key _ limits) (ground arith) h,
              ))
      ]
    ]

-- Where the window of a key counts at most the limit, which is above 0, at most twice the limit of
-- the requests with that key is admitted in a second.
pub admitted-twice :
    (t limit : ℕ) (limits : Limits) (key : RateLimitKey) (w : RateLimitWindow) (times : List ℕ)
    → 0 < limit
    → lookup key limits ≡ some w
    → w.count ≤ limit
    → All (IsInSecond t) times
    → admitted limits key limit times ≤ limit + limit
admitted-twice t limit limits key w times l e c h =
    omega (arith, across t limit limits key w times l e c h)

pub first_call :
    (limits : Limits) (key : RateLimitKey) (now limit : ℕ)
    → 0 < limit
    → lookup key limits ≡ none
    → is_rate_limited limits key now limit
      ≡ (false, insert key (record { start = now; count = 1 }) limits)
unfolding is_rate_limited
first_call limits key now limit l e = rw e (ground arith)

-- Under a limit above 0, in the second that its first request begins, a key that has no window yet
-- gets exactly `limit` requests through, or all of them where there are fewer.
pub admitted-fresh :
    (limits : Limits) (key : RateLimitKey) (limit t : ℕ) (times : List ℕ)
    → 0 < limit
    → lookup key limits ≡ none
    → All (IsInSecond t) times
    → admitted limits key limit (t ∷ times) ≡ at_most limit (suc (length times))
admitted-fresh limits key limit t times l e h =
    rw (admitted_step limits _ key limit t times _ (first_call limits key t limit l e)) (
      ground (
        arith,
        within t limit (insert key (record { start = t; count = 1 }) limits) key
            (record { start = t; count = 1 }) times l (lookup_inserted key _ limits) (omega arith)
            (omega arith) h,
      ))

-- A call for one key never changes the window of another, and with a limit of 0 it always refuses.
pub is_rate_limited-others :
    (limits : Limits) (key other : RateLimitKey) (now limit : ℕ)
    → rate_limit_key.beq key other ≡ false
    → (lookup other (is_rate_limited limits key now limit).1 ≡ lookup other limits)
      × ((is_rate_limited limits key now 0).0 ≡ true)
unfolding is_rate_limited
is_rate_limited-others limits key other now limit h = (
  ground (
    arith,
    lookup-insert key other
        (counted limit
          (renewed now (unwrap_or (lookup key limits) (record { start = now; count = 0 })))).1
        limits,
  ),
  ground arith,
)
