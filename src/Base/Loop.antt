-- ===== src/Base/Loop.antt =====
-- Loops over a range as calls on a state, with the rule for their invariants.
use Prim.Native.Nat.{ℕ, zero, suc, ◌+◌, ◌≤◌, ◌<◌}
use mathlib.Core.Path.{◌≡◌, subst}
use native.Mathlib.Omega.{arith}
use trollos.Base.Outcome.{Cmd, pure, ◌>>◌, Ends, returns, bind}

-- for (i = i; n > 0; i++, n--) body(i);
unfoldable pub for_up : {S : Type 0} → ℕ → ℕ → (ℕ → Cmd S (Unit {0})) → Cmd S (Unit {0})
for_up zero i body = pure tt
for_up (suc n) i body = body i >> for_up n (i + 1) body

-- for (i = i + n - 1; n > 0; i--, n--) body(i);
unfoldable pub for_down : {S : Type 0} → ℕ → ℕ → (ℕ → Cmd S (Unit {0})) → Cmd S (Unit {0})
for_down zero i body = pure tt
for_down (suc n) i body = body (i + n) >> for_down n i body

module _ {S : Type 0} (P : ℕ → S → Type 0) (body : ℕ → Cmd S (Unit {0})) where
  pub for_up-Ends :
      (n i : ℕ) (s : S)
      → ((k : ℕ) (t : S)
          → i ≤ k
          → k < i + n
          → P k t
          → Ends (λ _ u. P (k + 1) u) (λ _ _. ⊥) (body k t))
      → P i s
      → Ends (λ _ u. P (i + n) u) (λ _ _. ⊥) (for_up n i body s)
  unfolding for_up
  for_up-Ends zero i s step p = let e : i ≡ i + 0 = omega arith in returns (subst (λ k. P k s) e p)
  for_up-Ends (suc n) i s step p =
      let e : i + 1 + n ≡ i + suc n = omega arith in
      bind (step i s (omega arith) (omega arith) p)
        (λ _ t q.
          subst (λ k. Ends (λ _ u. P k u) (λ _ _. ⊥) (for_up n (i + 1) body t)) e
            (for_up-Ends n (i + 1) t (λ k u a b. step k u (omega arith) (omega arith)) q))
        (λ _ _ f. f)

  -- Downwards, `P k` holds before the round on `k - 1`.
  pub for_down-Ends :
      (n i : ℕ) (s : S)
      → ((k : ℕ) (t : S)
          → i ≤ k
          → k < i + n
          → P (k + 1) t
          → Ends (λ _ u. P k u) (λ _ _. ⊥) (body k t))
      → P (i + n) s
      → Ends (λ _ u. P i u) (λ _ _. ⊥) (for_down n i body s)
  unfolding for_down
  for_down-Ends zero i s step p =
      let e : i + 0 ≡ i = omega arith in returns (subst (λ k. P k s) e p)
  for_down-Ends (suc n) i s step p =
      let e : i + suc n ≡ i + n + 1 = omega arith in
      bind (step (i + n) s (omega arith) (omega arith) (subst (λ k. P k s) e p))
        (λ _ t q. for_down-Ends n i t (λ k u a b. step k u a (omega arith)) q) (λ _ _ f. f)
