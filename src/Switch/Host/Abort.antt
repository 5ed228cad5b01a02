-- ===== src/Switch/Host/Abort.antt =====
-- When the switch of a host is given up before any instance is switched.
use dbha.Prelude.{List, [], ◌∷◌, Text, All}
use dbha.Switch.Host.{
  HostEvent, asked_ctx, set_unavailable, tried_lock, unlocked, checked, switched, updated_meta,
  finalized, HostInstance, Instances,
}
use dbha.Switch.Host.Checking.{StatusOk, IsUnavailable, IsChecked}

-- The instance had a status that a switch may start from, a batch call with its address has set it
-- unavailable, and its check has been called and has not failed.
pub record IsPrepared (t : List HostEvent) (kv : Text × HostInstance) : Type 0 where
  pub status_ok : StatusOk kv
  pub set : IsUnavailable t kv
  pub check : IsChecked t kv

-- At every call of `DoSwitch` all instances are prepared by the calls before it.
abbrev pub SwitchesPrepared : Instances → List HostEvent → Type 0
SwitchesPrepared insts [] = Unit
SwitchesPrepared insts (switched k done ∷ t) = All (IsPrepared t) insts × SwitchesPrepared insts t
SwitchesPrepared insts (asked_ctx ∷ t) = SwitchesPrepared insts t
SwitchesPrepared insts (set_unavailable cloud addresses done ∷ t) = SwitchesPrepared insts t
SwitchesPrepared insts (tried_lock key done ∷ t) = SwitchesPrepared insts t
SwitchesPrepared insts (unlocked key ∷ t) = SwitchesPrepared insts t
SwitchesPrepared insts (checked k code ∷ t) = SwitchesPrepared insts t
SwitchesPrepared insts (updated_meta k done ∷ t) = SwitchesPrepared insts t
SwitchesPrepared insts (finalized k done ∷ t) = SwitchesPrepared insts t

-- Once all are prepared, they stay so, and a switch may be called.
abbrev Going : Instances → List HostEvent → Type 0
Going insts t = All (IsPrepared t) insts × SwitchesPrepared insts t
