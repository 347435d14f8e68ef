-- ===== src/Tests/Fixtures.antt =====
-- A database in memory with one tenant, and some records.
use kestrai.Prelude.{ℕ, [], ◌∷◌, ◌++◌}
use kestrai.Text.{Str, codes}
use kestrai.Auth.{default_tenant}
use kestrai.Store.{Key, Record}
use kestrai.Store.Engine.{Row}
use kestrai.Store.Operations.{Ambient, Backend}
use kestrai.Store.Memory.{Memory, memory}
use kestrai.Store.Memory.Texts.{plain_columns}

abbrev pub ambient : Ambient
ambient = record {
  now = 1700000000;
  entropy = record {
    b0 = 0;
    b1 = 17;
    b2 = 34;
    b3 = 51;
    b4 = 68;
    b5 = 85;
    b6 = 102;
    b7 = 119;
    b8 = 136;
    b9 = 153;
    b10 = 170;
    b11 = 187;
    b12 = 204;
    b13 = 221;
    b14 = 238;
    b15 = 255;
  };
}

abbrev pub backend : {D : Type 0} → Backend (Memory D) D
backend = record { sql = memory; columns = plain_columns }

abbrev pub empty_db : {D : Type 0} → Memory D
empty_db = record { table = []; tenants = default_tenant ∷ [] }

abbrev pub key : Str → Key
key name = record { tenant_id = default_tenant; kind = codes "Project"; project = []; name = name }

abbrev pub a_key : Key
a_key = key (codes "a")

abbrev pub record_of : {D : Type 0} → Key → Str → D → Record D
record_of k version body = record {
  key = k;
  uid = [];
  resource_version = version;
  generation = 1;
  labels = (codes "app", codes "web") ∷ [];
  created_at = 0;
  body = body;
}

-- One row `a` with version 1.
abbrev pub draft : Record ℕ
draft = record_of a_key [] 7

abbrev pub stored : Record ℕ
stored = record draft {
  uid = codes "00112233-4455-4677-8899-aabbccddeeff";
  resource_version = codes "1";
  created_at = 1700000000;
}

abbrev pub row : Row ℕ
row = record {
  uid = codes "00112233-4455-4677-8899-aabbccddeeff";
  resource_version = 1;
  generation = 1;
  labels = (codes "crr" ++ 1 ∷ codes "ygd") ++ 0 ∷ [];
  created_at = 1700000000 ∷ [];
  body = 7;
}

abbrev pub one_row : Memory ℕ
one_row = record { table = (a_key, row) ∷ []; tenants = default_tenant ∷ [] }

-- The record edited once.
abbrev pub edit : Record ℕ
edit = record stored { generation = 2; body = 8 }

abbrev pub edited : Record ℕ
edited = record edit { resource_version = codes "2" }

abbrev pub edited_row : Row ℕ
edited_row = record row { resource_version = 2; generation = 2; body = 8 }

abbrev pub edited_db : Memory ℕ
edited_db = record one_row { table = (a_key, edited_row) ∷ (a_key, row) ∷ [] }
