-- ===== src/Routing/Api/Cycle.antt =====
-- About `flatten_router` on routers that are mounted in a cycle.
use fastrapi.Prelude.{
  ℕ, zero, suc, ◌≡◌, refl, subst, none, List, [], ◌∷◌, arith, ==_iff, ◌⊎◌, inl, inr,
}
use fastrapi.Text.{Str}
use fastrapi.Routing.Types.{RouteEntry, WebSocketEntry}
use fastrapi.Routing.Api.{
  SubRouterMount, Heap, Frame, mark_frozen, push_all, flatten_loop, flatten_router,
}

module _ (C : ℕ → Type 0) where
  -- Some mount, or some frame, is of a router in `C`.
  abbrev pub MountsOne : List SubRouterMount → Type 0
  MountsOne [] = ⊥
  MountsOne (sub ∷ subs) = C sub.router ⊎ MountsOne subs

  abbrev Waits : List Frame → Type 0
  Waits [] = ⊥
  Waits (frame ∷ stack) = C frame.0 ⊎ Waits stack

  -- Every router in `C` mounts a router in `C`.
  abbrev pub IsCycle : Heap → Type 0
  IsCycle heap = (id : ℕ) → C id → MountsOne (heap id).sub_routers

  Waits-push_all :
      (prefix : Str) (tags : List Str) (subs : List SubRouterMount) (stack : List Frame)
      → MountsOne subs ⊎ Waits stack
      → Waits (push_all prefix tags subs stack)
  unfolding push_all
  Waits-push_all prefix tags [] stack (inl h) = absurd h
  Waits-push_all prefix tags [] stack (inr h) = h
  Waits-push_all prefix tags (sub ∷ subs) stack (inl (inl e)) =
      Waits-push_all prefix tags subs _ (inr (inl e))
  Waits-push_all prefix tags (sub ∷ subs) stack (inl (inr m)) =
      Waits-push_all prefix tags subs _ (inl m)
  Waits-push_all prefix tags (sub ∷ subs) stack (inr w) =
      Waits-push_all prefix tags subs _ (inr (inr w))

sub_routers-mark_frozen :
    (j k : ℕ) (heap : Heap) → (heap k).sub_routers ≡ (mark_frozen j heap k).sub_routers
unfolding mark_frozen
sub_routers-mark_frozen j k heap = ground (arith, ==_iff j k)

module _ (C : ℕ → Type 0) where
  IsCycle-mark_frozen : (j : ℕ) (heap : Heap) → IsCycle C heap → IsCycle C (mark_frozen j heap)
  IsCycle-mark_frozen j heap h k c =
      subst (λ subs. MountsOne C subs) (sub_routers-mark_frozen j k heap) (h k c)

  Waits-of :
      (id : ℕ) (stack : List Frame) (heap : Heap)
      → IsCycle C heap
      → C id ⊎ Waits C stack
      → MountsOne C (heap id).sub_routers ⊎ Waits C stack
  Waits-of id stack heap h (inl c) = inl (h id c)
  Waits-of id stack heap h (inr w) = inr w

  loop-Waits :
      (fuel : ℕ) (heap : Heap) (stack : List Frame) (routes : List RouteEntry)
      (ws : List WebSocketEntry)
      → IsCycle C heap
      → Waits C stack
      → flatten_loop fuel heap stack routes ws ≡ none
  unfolding flatten_loop
  loop-Waits fuel heap [] routes ws h w = absurd w
  loop-Waits zero heap (frame ∷ stack) routes ws h w = refl
  loop-Waits (suc fuel) heap ((j, prefix, tags) ∷ stack) routes ws h w =
      loop-Waits fuel (mark_frozen j heap) _ _ _ (IsCycle-mark_frozen j heap h)
        (Waits-push_all C _ _ (heap j).sub_routers stack (Waits-of j stack heap h w))

  -- If every router of a set mounts a router of the set, as on a cycle of `include_router` calls or
  -- where a router is mounted on itself, no router of the set is ever flattened: no fuel is enough.
  pub flatten_router_cycle :
      (fuel id : ℕ) (heap : Heap) → IsCycle C heap → C id → flatten_router fuel id heap ≡ none
  unfolding flatten_router
  flatten_router_cycle fuel id heap h c = loop-Waits fuel heap ((id, [], []) ∷ []) [] [] h (inl c)
