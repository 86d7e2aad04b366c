-- ===== src/Audit/Events.antt =====
-- The records of internal/srvgovaudit/audit.go. A pointer is an `Option`.
use srvgov_cli.Prelude.{ℕ, Bool, Option, ℤ}
use srvgov_cli.GoText.{Text}

pub record Context : Type 0 where
  pub name : Text
  pub env : Text
  pub protected_ : Bool

pub record Target : Type 0 where
  pub host : Text
  pub fingerprint : Text
  pub bytes : ℤ

pub record ErrorInfo : Type 0 where
  pub code : Text
  pub message : Text

pub record FileInfo : Type 0 where
  pub path : Text
  pub path_fingerprint : Text
  pub path_bytes : ℤ
  pub bytes_written : ℤ
  pub sha256 : Text

pub record MutationMetadata : Type 0 where
  pub target_fingerprint : Text
  pub target_bytes : ℤ
  pub payload_fingerprint : Text
  pub payload_bytes : ℤ
  pub revision : Text
  pub items : ℤ
  pub creates : ℤ
  pub updates : ℤ
  pub deletes : ℤ

pub record MutationOutcome : Type 0 where
  pub status : Text
  pub error_code : Text
  pub succeeded : ℤ
  pub failed : ℤ
  pub skipped : ℤ
  pub uncertain : ℤ
  pub output_incomplete : Bool
  pub revision : Text
  pub payload_fingerprint : Text
  pub payload_bytes : ℤ

pub record ReadOutcome : Type 0 where
  pub status : Text
  pub error_code : Text
  pub output_incomplete : Bool

-- `Event`; its time stamp is a number that is 0 for Go's zero time.
pub record AuditEvent : Type 0 where
  pub timestamp : ℕ
  pub event_type : Text
  pub operator : Text
  pub context : Context
  pub ticket : Text
  pub ticket_fingerprint : Text
  pub ticket_bytes : ℤ
  pub reason : Text
  pub reason_fingerprint : Text
  pub reason_bytes : ℤ
  pub target : Target
  pub command : Text
  pub command_fingerprint : Text
  pub command_bytes : ℤ
  pub risk_tier : Text
  pub status : Text
  pub stdout : Text
  pub stdout_fingerprint : Text
  pub stdout_bytes : ℤ
  pub stderr : Text
  pub stderr_fingerprint : Text
  pub stderr_bytes : ℤ
  pub output_incomplete : Bool
  pub exit_code : ℤ
  pub error : Option ErrorInfo
  pub file : Option FileInfo
  pub mutation_id : Text
  pub operation_id : Text
  pub phase : Text
  pub action : Text
  pub metadata : Option MutationMetadata
  pub outcome : Option MutationOutcome
  pub read_outcome : Option ReadOutcome
