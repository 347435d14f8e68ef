-- ===== src/Server/Wire.antt =====
-- The protobuf runtime: proto.Marshal, proto.Unmarshal and proto.Equal, which are not part of the
-- repository. A message that marshals can be read back, and equal messages are those with the same
-- fields.
use kestrai.Prelude.{◌≡◌, ◌↔◌, Bool, true, Result, ok}
use kestrai.Text.{Str}

pub record Wire (D M : Type 0) : Type 0 where
  pub marshal : M → Result Str D
  pub unmarshal : D → Result Str M

pub record WireLaws {D M : Type 0} (w : Wire D M) : Type 0 where
  pub unmarshal_marshal : (m : M) (d : D) → w.marshal m ≡ ok d → w.unmarshal d ≡ ok m

pub record ProtoEqual (M : Type 0) : Type 0 where
  pub equal : M → M → Bool
  pub equal_iff : (m n : M) → (equal m n ≡ true) ↔ (m ≡ n)
