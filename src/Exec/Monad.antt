-- ===== src/Exec/Monad.antt =====
-- Code that returns an `ExecutableResult`, may panic, and talks to the services outside, whose state
-- is `W`. What was sent before a failure stays sent.
use privadex.Prelude.{◌≡◌, refl, Option}
use privadex.Prelude.Fallible.{Outcome, ok, err, panic, ok_or}
use privadex.Exec.Status.{ExecutableError}

abbrev pub M : Type 0 → Type 0 → Type 0
M W A = W → Outcome ExecutableError A × W

module _ {W A : Type 0} where
  abbrev pub pure : A → M W A
  pure a w = (ok a, w)

  abbrev pub raise : ExecutableError → M W A
  raise e w = (err e, w)

  abbrev pub lift : Outcome ExecutableError A → M W A
  lift r w = (r, w)

  -- A service that answers `none` has failed: `map_err(|_| e)`.
  abbrev pub map_err : (W → Option A × W) → ExecutableError → M W A
  map_err call e w = let (o, w') = call w in (ok_or o e, w')

module _ {W A B : Type 0} where
  abbrev pub continue : Outcome ExecutableError A × W → (A → M W B) → Outcome ExecutableError B × W
  continue (ok a, w) f = f a w
  continue (err e, w) f = (err e, w)
  continue (panic, w) f = (panic, w)

  infixl 5 ◌>>=◌ ◌>>◌
  abbrev pub ◌>>=◌ : M W A → (A → M W B) → M W B
  ◌>>=◌ m f w = continue (m w) f

  abbrev pub ◌>>◌ : M W A → M W B → M W B
  m >> k = m >>= λ _. k

  -- A block that succeeds: its first part does, and the rest does from there.
  pub >>=-eq-ok :
      (m : M W A) (f : A → M W B) {w w' : W} {b : B}
      → (m >>= f) w ≡ (ok b, w')
      → (a : A) × (v : W) × (m w ≡ (ok a, v)) × (f a v ≡ (ok b, w'))
  >>=-eq-ok m f {w} h = go (m w) refl h
    where
      go :
          (r : Outcome ExecutableError A × W)
          → m w ≡ r
          → {w' : W} {b : B} → continue r f ≡ (ok b, w')
          → (a : A) × (v : W) × (m w ≡ (ok a, v)) × (f a v ≡ (ok b, w'))
      go (ok a, v) e k = (a, v, e, k)
      go (err x, v) e k = cc
      go (panic, v) e k = cc
