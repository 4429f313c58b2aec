-- ===== src/Cli/Atomic.antt =====
-- Limits are updated for both containers, or set back for both.
use tx.Base.{false, ◌≡◌, List, [], Result, ok, err}
use tx.Box.{Box, Fault}
use tx.Cli.Limits.{LimitFault, not_updated, not_persisted, of_box, no_override, cannot_change}
use tx.Cli.Live.{HaveLimits}
use tx.Cli.SetBack.{IsSetBack}
use tx.Decimal.{ℤ}
use tx.Docker.Exec.{Exec}
use tx.Docker.{Engine, World, Event}
use tx.Resources.{Resources, ContainerResources, Role, agent_role, executor_role}
use tx.Text.{Text, text_eq}

-- The roles that the error names.
unfoldable pub left_behind : LimitFault → List Role
left_behind (not_updated role roles) = roles
left_behind (not_persisted f roles) = roles
left_behind (of_box f) = []
left_behind no_override = []
left_behind (cannot_change role limit) = []

module _ (engine : Engine) (live : Text → ℤ × ℤ) (b : Box) (old updated : Resources)
    (persist : Exec engine Fault (Unit {0})) where
  -- What a run that ends this way promises.
  unfoldable pub IsAtomic : Result LimitFault (Unit {0}) × World engine → Type 0
  IsAtomic (ok u, w) =
      HaveLimits live b updated.agent updated.executor w.trace
      × ((before : World engine) × (persist before ≡ (ok tt, w)))
  IsAtomic (err f, w) =
      IsSetBack live agent_role b.agent_id old.agent (left_behind f) w.trace
      × IsSetBack live executor_role b.executor_id old.executor (left_behind f) w.trace

module _ (engine : Engine) (live : Text → ℤ × ℤ) (b : Box) (old updated : Resources)
    (apart : text_eq b.agent_id b.executor_id ≡ false)
    (persist : Exec engine Fault (Unit {0})) where
  abbrev Have : ContainerResources → ContainerResources → List Event → Type 0
  Have agent executor t = HaveLimits live b agent executor t
