-- ===== src/VendorRuntime/Ledger.antt =====
-- packages/vendor-runtime/src/ledger.ts: the calls of a vendor, read from its log.
pub mod Text
pub mod Parse
pub mod Correlate
pub mod Conservation
pub mod Tests
use testy_mc_testface.Prelude.{ℤ, String, Bool, Option}
use testy_mc_testface.Scenario.Value.{Value}

pub record MatchEvent : Type 0 where
  pub vendor_id : String
  pub operation_id : Option String
  pub case_id : Option String
  pub unmatched : Bool
  pub correlation_id : Option String

pub record StateEvent : Type 0 where
  pub operation_id : Option String
  pub case_id : Option String
  pub correlation_id : Option String
  pub state_before : Option String
  pub state_after : Option String
  pub state_request_count : Option ℤ
  pub sequence_index : Option ℤ

pub record SummaryEvent : Type 0 where
  pub timestamp : Option String
  pub method : Option String
  pub path_fingerprint : Option String
  pub status_code : Option ℤ
  pub duration_ms : Option ℤ
  pub correlation_id : Option String

pub record ProviderCallLedgerEntry : Type 0 where
  pub vendor_id : String
  pub operation_id : Option String
  pub case_id : Option String
  pub unmatched : Bool
  pub correlation_id : Option String
  pub timestamp : Option String
  pub method : Option String
  pub path_fingerprint : Option String
  pub status_code : Option ℤ
  pub duration_ms : Option ℤ
  pub state_before : Option String
  pub state_after : Option String
  pub state_request_count : Option ℤ
  pub sequence_index : Option ℤ

-- What the platform gives: `JSON.parse` where it does not throw, `Number(text)` where it is finite,
-- and SHA-256. Numbers are integers.
pub record Platform : Type 0 where
  pub parse_json : String → Option Value
  pub number : String → Option ℤ
  pub sha256 : String → String
