-- ===== src/Extern/Uuid.antt =====
-- libuuid: uuid_parse and uuid_unparse.
use libinv.Prelude.{◌≡◌, Option, some, Bytes}

pub record Uuid : Type 1 where
  pub Value : Type 0
  pub unparse : Value → Bytes
  -- `none` where uuid_parse returns an error
  pub parse : Bytes → Option Value
  pub parse-unparse : (u : Value) → parse (unparse u) ≡ some u
