-- ===== src/LogStore/Record.antt =====
-- The records of crates/core/src/log_store.rs, and what makes one valid.
use tron_hawk.Common.{
  ℕ, ◌≡◌, refl, Bool, true, false, not, ◌&&◌, ◌||◌, Option, List, [], ◌∷◌, map, Str, codes, str_eq,
  str_eq_refl, contains_text, is_some, is_empty, len, ltb, leb, ◌==◌, Result, ok, err, ◌>>=◌, ◌>>◌,
  reject_if, if◌then◌else◌, arith, Bool-cases, inl, inr, err-ne-ok,
}

pub data LogStream : Type 0 where
  core runtime plugin : LogStream

pub data LogLevel : Type 0 where
  info warn error : LogLevel

abbrev pub same_stream : LogStream → LogStream → Bool
same_stream core core = true
same_stream runtime runtime = true
same_stream plugin plugin = true
same_stream _ _ = false

pub record LogRecord : Type 0 where
  pub schema_version : ℕ
  pub sequence : ℕ
  pub timestamp_ms : ℕ
  pub stream : LogStream
  pub level : LogLevel
  pub code : Str
  pub application_id : Str
  pub plugin_id : Option Str
  pub message : Str

pub record NewLogRecord : Type 0 where
  pub stream : LogStream
  pub level : LogLevel
  pub code : Str
  pub application_id : Str
  pub plugin_id : Option Str
  pub message : Str

pub data LogError : Type 0 where
  message_too_long before_epoch timestamp_range record_too_long : LogError
  invalid_record invalid_metadata unnormalized_controls invalid_attribution : LogError
  io_error : LogError

abbrev pub schema_version_now : ℕ
schema_version_now = 1

abbrev pub max_message_bytes : ℕ
max_message_bytes = 1024

abbrev pub max_record_bytes : ℕ
max_record_bytes = 3072

-- `char::is_control`: the Unicode category Cc.
abbrev pub is_control : ℕ → Bool
is_control c = leb c 0x1f || (leb 0x7f c && leb c 0x9f)

abbrev pub without_controls : Str → Str
without_controls message = map (λ c. if is_control c then b' ' else c) message

unfoldable pub normalize_message : Str → Result LogError Str
normalize_message message =
    if ltb max_message_bytes (len (without_controls message))
    then err message_too_long
    else ok (without_controls message)

abbrev pub core_codes : List Str
core_codes =
    codes "core.application.registered"
    ∷ codes "core.application.removed"
    ∷ codes "core.plugin.installed"
    ∷ codes "core.plugin.removed"
    ∷ codes "core.plugin.scan_failed"
    ∷ codes "core.plugin_config.updated"
    ∷ codes "core.policy.updated"
    ∷ codes "core.developerMode.updated"
    ∷ codes "core.launch_session.created"
    ∷ codes "core.storage.migrate_failed"
    ∷ codes "core.autostart.register_failed"
    ∷ codes "core.iefo.registered"
    ∷ codes "core.iefo.unregistered"
    ∷ codes "core.iefo.write_failed"
    ∷ codes "core.renderer.script_required"
    ∷ []

-- The codes of a stream, and whether its records name a plugin.
unfoldable pub valid_shape : LogStream → Str → Option Str → Bool
valid_shape runtime code plugin_id =
    str_eq code (codes "runtime.message") && not (is_some plugin_id)
valid_shape plugin code plugin_id =
    contains_text (codes "plugin.message" ∷ codes "network.request" ∷ []) code && is_some plugin_id
valid_shape core code plugin_id = contains_text core_codes code

unfoldable pub check_message : Str → Result LogError (Unit {0})
unfolding normalize_message
check_message message = normalize_message message >>= λ normalized.
    reject_if (not (str_eq normalized message)) unnormalized_controls

unfoldable pub validate_record : LogRecord → Result LogError (Unit {0})
unfolding check_message valid_shape
validate_record record_ =
    reject_if
      (not (record_.schema_version == schema_version_now)
        || record_.sequence == 0
        || record_.timestamp_ms == 0)
      invalid_metadata
    >> check_message record_.message
    >> reject_if
        (not (valid_shape record_.stream record_.code record_.plugin_id)
          || is_empty record_.application_id)
        invalid_attribution

-- The record that `append` makes of an event.
abbrev pub record_of : NewLogRecord → ℕ → ℕ → Str → LogRecord
record_of event sequence timestamp_ms message = record {
  schema_version = schema_version_now;
  sequence = sequence;
  timestamp_ms = timestamp_ms;
  stream = event.stream;
  level = event.level;
  code = event.code;
  application_id = event.application_id;
  plugin_id = event.plugin_id;
  message = message;
}

without_controls_idem : (s : Str) → without_controls (without_controls s) ≡ without_controls s
without_controls_idem [] = refl
without_controls_idem (c ∷ s) = ground (arith, without_controls_idem s)

-- What `normalize_message` returns passes the check that reading makes.
pub check_message-normalize_message :
    (message normalized : Str)
    → normalize_message message ≡ ok normalized
    → check_message normalized ≡ ok tt
unfolding check_message normalize_message
check_message-normalize_message message normalized h =
    elim (Bool-cases (ltb max_message_bytes (len (without_controls message)))) [
      | inl long ↦ err-ne-ok (rw (long, normalize_message) at h)
      | inr fits ↦
          let same : without_controls message ≡ normalized =
            cc (rw (fits, normalize_message) at h) in
          rw (← same) (
            rw
              (
                check_message,
                normalize_message,
                without_controls_idem message,
                fits,
                str_eq_refl (without_controls message),
              )
              refl)
    ]
