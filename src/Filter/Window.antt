-- ===== src/Filter/Window.antt =====
-- Runs of a filter, and their specification: a function of the window of the latest samples.
use external_servo.Prelude.{ℕ, ◌≡◌, refl, Option, some, List, [], ◌∷◌, ◌>>=◌}
use external_servo.Tmv.{Tmv}
use external_servo.Filter.Ring.{push_window}

-- A sequence of samples through a filter, and what it returns for each.
pub run {ℓ} : {S : Type ℓ} → (S → Tmv → Option (Tmv × S)) → S → List Tmv → Option (List Tmv)
run sample m [] = some []
run sample m (s ∷ ss) = do (r, m') ← sample m s; rs ← run sample m' ss; some (r ∷ rs)

-- The results that `spec` gives for the windows, from the window `w` on.
pub windowed : (List Tmv → Option Tmv) → ℕ → List Tmv → List Tmv → Option (List Tmv)
windowed spec len w [] = some []
windowed spec len w (s ∷ ss) = do
  r ← spec (push_window len w s)
  rs ← windowed spec len (push_window len w s) ss
  some (r ∷ rs)

-- The two runs end, with the same results.
abbrev pub Agree : Option (List Tmv) → Option (List Tmv) → Type 0
Agree a b = (rs : List Tmv) × (a ≡ some rs) × (b ≡ some rs)

-- One call that keeps the invariant and returns what the specification says of the new window.
pub record Refines {ℓ κ} {S : Type ℓ} (sample : S → Tmv → Option (Tmv × S))
    (spec : List Tmv → Option Tmv) (Valid : S → Type κ) (contents : S → List Tmv) (len : S → ℕ)
    (m : S) (s : Tmv) : Type (ℓ ⊔ κ) where
  pub result : Tmv
  pub next : S
  pub returns : sample m s ≡ some (result, next)
  pub meant : spec (push_window (len m) (contents m) s) ≡ some result
  pub held : contents next ≡ push_window (len m) (contents m) s
  pub valid : Valid next
  pub same_len : len next ≡ len m

module _ {ℓ κ} {S : Type ℓ} (sample : S → Tmv → Option (Tmv × S)) (spec : List Tmv → Option Tmv)
    (Valid : S → Type κ) (contents : S → List Tmv) (len : S → ℕ)
    (step : (m : S) (s : Tmv) → Valid m → Refines sample spec Valid contents len m s) where
  pub run_refines :
      (ss : List Tmv) (m : S)
      → Valid m
      → Agree (run sample m ss) (windowed spec (len m) (contents m) ss)
  unfolding run windowed
  run_refines [] m v = ([], refl, refl)
  run_refines (s ∷ ss) m v =
      let t = step m s v in
      let (rs, done, spec_done) = run_refines ss t.next t.valid in
      let spec_done' = rw (t.held, t.same_len) at spec_done in
      (t.result ∷ rs, rw (t.returns, done), rw (t.meant, spec_done'))
