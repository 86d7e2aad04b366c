-- ===== src/Audit/Sanitize.antt =====
-- `Sanitize` of internal/srvgovaudit/audit.go.
pub mod Laws
use srvgov_cli.Prelude.{
  ◌/◌, ◌%◌, ℕ, zero, suc, ◌+◌, ◌-◌, ◌*◌, ◌≤◌, ◌<◌, String, ◌≡◌, refl, sym, ap, ◌∙◌, ◌≢◌, ◌↔◌, ◌⊎◌,
  inl, inr, Bool, true, false, not, ◌&&◌, ◌||◌, Option, none, some, List, [], ◌∷◌, ◌++◌, map,
  append-nil, append_assoc, arith, ltb, leb, ◌==◌, if◌then◌else◌, ==_iff, Bool-cases, or_resolve,
  Option-cases, ◌>>=◌, >>=-eq-some, length, take, any, all, length-append, any-append, All,
  All-append, All-map, All-of, IfSome, split_if, IfSome-eq, holds_below, holds_below-at, ℤ, pos,
  negsuc, is_negative, clamp, is_positive,
}
use srvgov_cli.GoText.{Text, codes, byte_length, Std}
use srvgov_cli.Audit.Events.{
  AuditEvent, Target, ErrorInfo, FileInfo, MutationMetadata, MutationOutcome,
}
use srvgov_cli.Audit.Fingerprints.{
  Digest, merge_fingerprint, normalize_fingerprint, valid_fingerprint, valid_bare_sha256,
}

-- A pointer that is copied and changed where it is not nil.
unfoldable pub cloned : {A : Type 0} → (A → A) → Option A → Option A
cloned f none = none
cloned f (some a) = some (f a)

-- A text of more than 256 bytes is dropped.
unfoldable pub bounded_revision : Text → Text
unfolding byte_length
bounded_revision revision = if ltb 256 (byte_length revision) then [] else revision

unfoldable pub sanitize_error : ErrorInfo → ErrorInfo
sanitize_error e = record e { message = [] }

module _ ⦃std : Std⦄ where
  unfoldable pub sanitize_metadata : MutationMetadata → MutationMetadata
  unfolding normalize_fingerprint bounded_revision
  sanitize_metadata m =
      let target = normalize_fingerprint m.target_fingerprint m.target_bytes in
      let payload = normalize_fingerprint m.payload_fingerprint m.payload_bytes in
      record m {
        target_fingerprint = target.0;
        target_bytes = target.1;
        payload_fingerprint = payload.0;
        payload_bytes = payload.1;
        items = clamp m.items;
        creates = clamp m.creates;
        updates = clamp m.updates;
        deletes = clamp m.deletes;
        revision = bounded_revision m.revision;
      }

  unfoldable pub sanitize_outcome : MutationOutcome → MutationOutcome
  unfolding normalize_fingerprint bounded_revision
  sanitize_outcome o =
      let payload = normalize_fingerprint o.payload_fingerprint o.payload_bytes in
      record o {
        succeeded = clamp o.succeeded;
        failed = clamp o.failed;
        skipped = clamp o.skipped;
        payload_fingerprint = payload.0;
        payload_bytes = payload.1;
        revision = bounded_revision o.revision;
      }

  module _ ⦃digest : Digest⦄ where
    unfoldable pub sanitize_file : FileInfo → FileInfo
    unfolding merge_fingerprint valid_bare_sha256
    sanitize_file file =
        let path =
          merge_fingerprint (codes "file-path") file.path file.path_fingerprint file.path_bytes in
        record {
          path = [];
          path_fingerprint = path.0;
          path_bytes = path.1;
          bytes_written = clamp file.bytes_written;
          sha256 = if valid_bare_sha256 file.sha256 then file.sha256 else [];
        }

    unfoldable pub sanitize_target : Target → Target
    unfolding merge_fingerprint
    sanitize_target t =
        let host = merge_fingerprint (codes "target") t.host t.fingerprint t.bytes in
        record { host = []; fingerprint = host.0; bytes = host.1 }

    unfoldable pub sanitize : AuditEvent → AuditEvent
    unfolding merge_fingerprint sanitize_file sanitize_target sanitize_error sanitize_metadata
        sanitize_outcome cloned
    sanitize e =
        let ticket =
          merge_fingerprint (codes "ticket") e.ticket e.ticket_fingerprint e.ticket_bytes in
        let reason =
          merge_fingerprint (codes "reason") e.reason e.reason_fingerprint e.reason_bytes in
        let command =
          merge_fingerprint (codes "command") e.command e.command_fingerprint e.command_bytes in
        let stdout =
          merge_fingerprint (codes "stdout") e.stdout e.stdout_fingerprint e.stdout_bytes in
        let stderr =
          merge_fingerprint (codes "stderr") e.stderr e.stderr_fingerprint e.stderr_bytes in
        record e {
          ticket = [];
          ticket_fingerprint = ticket.0;
          ticket_bytes = ticket.1;
          reason = [];
          reason_fingerprint = reason.0;
          reason_bytes = reason.1;
          command = [];
          command_fingerprint = command.0;
          command_bytes = command.1;
          stdout = [];
          stdout_fingerprint = stdout.0;
          stdout_bytes = stdout.1;
          stderr = [];
          stderr_fingerprint = stderr.0;
          stderr_bytes = stderr.1;
          target = sanitize_target e.target;
          file = cloned sanitize_file e.file;
          error = cloned sanitize_error e.error;
          metadata = cloned sanitize_metadata e.metadata;
          outcome = cloned sanitize_outcome e.outcome;
        }
