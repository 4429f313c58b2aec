-- ===== src/Docker/Keeps.antt =====
-- What holds of the calls after one action and after the next: the rules by which a property of the
-- calls is carried through a run.
use tx.Base.{List, ◌≡◌, refl, Result, ok, err}
use tx.Docker.Exec.{Exec, continue}
use tx.Docker.{Engine, World, Event}

pub continue-keeps :
    {engine : Engine} {E A B : Type 0} (P : List Event → Type 0) (out : Result E A × World engine)
    (f : A → Exec engine E B)
    → P out.1.trace
    → ((a : A) → P (f a out.1).1.trace)
    → P (continue out.0 f out.1).1.trace
continue-keeps P (ok a, w) f p next = next a
continue-keeps P (err e, w) f p next = p

-- The next action starts where the first one ended, and from what it returned.
pub continue-ok :
    {engine : Engine} {E A B : Type 0} (P : List Event → Type 0) (out : Result E A × World engine)
    (f : A → Exec engine E B)
    → P out.1.trace
    → ((a : A) → out.0 ≡ ok a → P (f a out.1).1.trace)
    → P (continue out.0 f out.1).1.trace
continue-ok P (ok a, w) f p next = next a refl
continue-ok P (err e, w) f p next = p

-- An action that succeeds has succeeded in both its parts.
pub continue-eq-ok :
    {engine : Engine} {E A B : Type 0} (out : Result E A × World engine) (f : A → Exec engine E B)
    {b : B}
    → (continue out.0 f out.1).0 ≡ ok b
    → (a : A) × (out.0 ≡ ok a) × (continue out.0 f out.1 ≡ f a out.1)
continue-eq-ok (ok a, w) f e = (a, refl, refl)
continue-eq-ok (err x, w) f e = cc

-- What held after the first action is at hand for the next.
pub continue-passes :
    {engine : Engine} {E A B : Type 0} (P : List Event → Type 0) (out : Result E A × World engine)
    (f : A → Exec engine E B)
    → P out.1.trace
    → ((a : A) → P out.1.trace → P (f a out.1).1.trace)
    → P (continue out.0 f out.1).1.trace
continue-passes P (ok a, w) f p next = next a p
continue-passes P (err e, w) f p next = p
