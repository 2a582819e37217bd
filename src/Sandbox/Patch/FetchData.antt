-- ===== src/Sandbox/Patch/FetchData.antt =====
-- src/sandbox/patch.rs: `FetchData`, the choice of what to fetch.
use near_sandbox_rs.Base.{Bool, true, false}

pub record FetchData : Type 0 where
  pub fetch_account : Bool
  pub fetch_storage : Bool
  pub fetch_code : Bool
  pub fetch_access_keys : Bool

abbrev pub new : FetchData
new = record {
  fetch_account = false;
  fetch_storage = false;
  fetch_code = false;
  fetch_access_keys = false;
}

-- `FetchData::NONE`
abbrev pub none : FetchData
none = new

-- `FetchData::ALL`
abbrev pub all : FetchData
all = record {
  fetch_account = true;
  fetch_storage = true;
  fetch_code = true;
  fetch_access_keys = true;
}

unfoldable pub account : FetchData → FetchData
account d = record d { fetch_account = true }

unfoldable pub storage : FetchData → FetchData
storage d = record d { fetch_storage = true }

unfoldable pub code : FetchData → FetchData
code d = record d { fetch_code = true }

unfoldable pub access_keys : FetchData → FetchData
access_keys d = record d { fetch_access_keys = true }
