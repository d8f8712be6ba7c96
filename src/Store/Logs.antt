-- ===== src/Store/Logs.antt =====
-- crates/nac-store/src/audit.rs and the `PostureRepo` of posture.rs: the statements that log.
use lentropy.Common.{
  ℕ, Bool, not, Option, none, some, List, [], ◌∷◌, ◌++◌, Text, String, ◌==◌, any, filter, length,
}
use lentropy.Outcome.{Outcome, ok, err, bail_if, ◌>>◌}
use lentropy.Exec.{lift, ◌>>=◌}
use lentropy.Store.Posture.{PostureReport}
use lentropy.Store.Database.{
  Value, AuditRow, Tables, StoreError, violated, serde_failed, Platform, Db, statement,
}

abbrev is_id : Option ℕ → ℕ → Bool
is_id none id = Bool.false
is_id (some i) id = i == id

abbrev of_endpoint : Option ℕ → AuditRow → Bool
of_endpoint none r = Bool.true
of_endpoint (some id) r = is_id r.endpoint_id id

module _ {Json : Type 0} (platform : Platform Json) where
  open platform use {now, uuid}

  abbrev unknown : Option ℕ → Tables Json → Bool
  unknown none tables = Bool.false
  unknown (some id) tables = not (any (λ e. e.id == id) tables.endpoints)

  -- The reference to an endpoint; the number of a row is that of its place.
  unfoldable pub log : String → Option ℕ → Text → List (String × Value) → Db Json (Unit {0})
  log event_type endpoint_id actor detail = statement platform λ n tables.
      bail_if (unknown endpoint_id tables) violated
      >> ok (
        tt,
        record tables {
          audit_log =
              tables.audit_log
              ++ record {
                id = length tables.audit_log;
                event_type = event_type;
                endpoint_id = endpoint_id;
                actor = actor;
                detail = detail;
                created_at = now n;
              }
                ∷ [];
        },
      )

  unfoldable pub count : Option ℕ → Db Json ℕ
  count endpoint_id =
      statement platform
        λ n tables. ok (length (filter (of_endpoint endpoint_id) tables.audit_log), tables)

  abbrev to_value : Option Json → Outcome StoreError Json
  to_value none = err serde_failed
  to_value (some v) = ok v

  unfoldable pub save : ℕ → PostureReport → Bool → Db Json (Unit {0})
  save endpoint_id report is_compliant = do
    sw ← lift (to_value (platform.software_to_value report.installed_software))
    patches ← lift (to_value (platform.patches_to_value report.missing_patches))
    statement platform λ n tables.
        bail_if (unknown (some endpoint_id) tables) violated
        >> ok (
          tt,
          record tables {
            posture_reports =
                tables.posture_reports
                ++ record {
                  id = length tables.posture_reports;
                  endpoint_id = endpoint_id;
                  os = report.os;
                  os_version = report.os_version;
                  installed_sw = sw;
                  missing_patches = patches;
                  usb_enabled = report.usb_enabled;
                  bluetooth_enabled = report.bluetooth_enabled;
                  folder_sharing = report.folder_sharing_enabled;
                  is_compliant = is_compliant;
                  reported_at = now n;
                }
                  ∷ [];
          },
        )
