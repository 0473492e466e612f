-- ===== src/Gossip/MachineId.antt =====
-- src/id.rs: the identity of a machine, sixteen bytes or, where it is malformed, others.
use cantal.Common.{ℕ, ◌≡◌, ◌↔◌, arith, Bool, true, false, ◌==◌, if◌then◌else◌, List, length}
use cantal.Common.Maps.{Eq}
use cantal.History.Key.{bytes_eq, bytes_eq_iff}

pub data MachineId : Type 0 where
  good : List ℕ → MachineId
  bad : List ℕ → MachineId

-- `Id::new`.
unfoldable pub of_bytes : List ℕ → MachineId
of_bytes id = if length id == 16 then good id else bad id

-- The derived `PartialEq`.
abbrev pub id_eq : MachineId → MachineId → Bool
id_eq (good a) (good b) = bytes_eq a b
id_eq (bad a) (bad b) = bytes_eq a b
id_eq _ _ = false

pub id_eq_iff : (a b : MachineId) → (id_eq a b ≡ true) ↔ (a ≡ b)
id_eq_iff (good a) (good b) = ground (arith, bytes_eq_iff a b)
id_eq_iff (bad a) (bad b) = ground (arith, bytes_eq_iff a b)
id_eq_iff (good a) (bad b) = (λ h. cc, λ h. cc)
id_eq_iff (bad a) (good b) = (λ h. cc, λ h. cc)

instance abbrev pub id_has_eq : Eq MachineId
id_has_eq = record { eq = id_eq; eq_iff = id_eq_iff }
