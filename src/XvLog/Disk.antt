-- ===== src/XvLog/Disk.antt =====
-- A disk as a function from blocks to data, and what holds of it after each write of a list.
use mephi_os_labs.Prelude.{ℕ, zero, suc, ◌≡◌, refl, ◌≢◌, List, [], ◌∷◌, ◌++◌, arith, take}
use mephi_os_labs.XvLog.{store}

module _ {B : Type 0} where
  -- The disk behind the writes.
  unfoldable pub applied : (ℕ → B) → List (ℕ × B) → ℕ → B
  applied d [] = d
  applied d (w ∷ ws) = applied (store d w.0 w.1) ws

  pub applied-append :
      (d : ℕ → B) (xs ys : List (ℕ × B)) → applied d (xs ++ ys) ≡ applied (applied d xs) ys
  unfolding applied
  applied-append d [] ys = refl
  applied-append d (w ∷ ws) ys = applied-append (store d w.0 w.1) ws ys

  -- `P` holds of the disk before, between and behind the writes.
  unfoldable pub Always : ((ℕ → B) → Type 0) → (ℕ → B) → List (ℕ × B) → Type 0
  Always P d [] = P d
  Always P d (w ∷ ws) = P d × Always P (store d w.0 w.1) ws

  -- So it holds wherever a crash cuts the writes off.
  pub Always-take :
      (P : (ℕ → B) → Type 0) (d : ℕ → B) (ws : List (ℕ × B)) (k : ℕ)
      → Always P d ws
      → P (applied d (take k ws))
  unfolding Always applied
  Always-take P d [] zero h = h
  Always-take P d [] (suc k) h = h
  Always-take P d (w ∷ ws) zero h = h.0
  Always-take P d (w ∷ ws) (suc k) h = Always-take P (store d w.0 w.1) ws k h.1

  pub Always-last :
      (P : (ℕ → B) → Type 0) (d : ℕ → B) (ws : List (ℕ × B)) → Always P d ws → P (applied d ws)
  unfolding Always applied
  Always-last P d [] h = h
  Always-last P d (w ∷ ws) h = Always-last P (store d w.0 w.1) ws h.1

  pub Always-append :
      (P : (ℕ → B) → Type 0) (d : ℕ → B) (xs ys : List (ℕ × B))
      → Always P d xs
      → Always P (applied d xs) ys
      → Always P d (xs ++ ys)
  unfolding Always applied
  Always-append P d [] ys hx hy = hy
  Always-append P d (w ∷ ws) ys hx hy = (hx.0, Always-append P (store d w.0 w.1) ws ys hx.1 hy)

  pub Always-map :
      (P Q : (ℕ → B) → Type 0) (d : ℕ → B) (ws : List (ℕ × B))
      → ((e : ℕ → B) → P e → Q e)
      → Always P d ws
      → Always Q d ws
  unfolding Always
  Always-map P Q d [] f h = f d h
  Always-map P Q d (w ∷ ws) f h = (f d h.0, Always-map P Q (store d w.0 w.1) ws f h.1)

  pub store-same : (f : ℕ → B) (b q : ℕ) (v : B) → q ≡ b → store f b v q ≡ v
  store-same f b q v h = ground arith

  pub store-other : (f : ℕ → B) (b q : ℕ) (v : B) → q ≢ b → store f b v q ≡ f q
  store-other f b q v h = ground arith
