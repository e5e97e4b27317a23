-- ===== src/Logging/Slog.antt =====
-- logging/slog.go: the handler that forwards the records of log/slog to logrus.
pub mod Groups
pub mod Levels
use mcp_searxng.Prelude.{Bool, List, [], ◌∷◌, ◌++◌, Option, none, some, map, if◌then◌else◌}
use mcp_searxng.Prelude.Int.{ℤ, pos, ltb_ℤ}
use mcp_searxng.Text.{Str, str, str_eq, join_dot}
use mcp_searxng.Assoc.{put}
use mcp_searxng.Log.{Level, debug, info, warn, error, Value, text, Log, log_fields}

-- The values of slog.LevelInfo, LevelWarn and LevelError.
abbrev pub level_info : ℤ
level_info = pos 0

abbrev pub level_warn : ℤ
level_warn = pos 4

abbrev pub level_error : ℤ
level_error = pos 8

-- slogLevelToLogrus
unfoldable pub slog_level_to_logrus : ℤ → Level
slog_level_to_logrus level =
    if ltb_ℤ level level_info
    then debug
    else if ltb_ℤ level level_warn
    then info
    else if ltb_ℤ level level_error
    then warn
    else error

-- slog.Attr, with its value resolved: a plain one, or a group of attributes.
mutual
  pub data AttrValue : Type 0 where
    plain : Value → AttrValue
    group : Attrs → AttrValue

  pub data Attrs : Type 0 where
    no_attrs : Attrs
    attr : Str → AttrValue → Attrs → Attrs

-- attrEntry
pub record AttrEntry : Type 0 where
  pub key : Str
  pub value : AttrValue
  pub groups : List Str

-- logrusHandler, without its logger.
pub record LogrusHandler : Type 0 where
  pub attrs : List AttrEntry
  pub groups : List Str

-- NewSlogHandler
abbrev pub new_slog_handler : LogrusHandler
new_slog_handler = record { attrs = []; groups = [] }

-- logrus.Fields, a map.
abbrev pub LogFields : Type 0
LogFields = List (Str × Value)

-- The key of an attribute in its groups; strings.Join of one part is that part.
unfoldable pub dotted : List Str → Str → Str
dotted groups key = join_dot (groups ++ key ∷ [])

-- logrusHandler.appendAttr, of an attribute and of those of a group.
unfoldable mutual
  unfolding dotted

  pub append_attr : Str → AttrValue → List Str → LogFields → LogFields
  append_attr key (plain v) groups fields = put (dotted groups key) v fields
  append_attr key (group sub) groups fields = append_attrs sub (groups ++ key ∷ []) fields

  pub append_attrs : Attrs → List Str → LogFields → LogFields
  append_attrs no_attrs groups fields = fields
  append_attrs (attr key v rest) groups fields =
      append_attrs rest groups (append_attr key v groups fields)

-- The loop of Handle over the handler's own attributes.
unfoldable pub append_entries : List AttrEntry → LogFields → LogFields
unfolding append_attr
append_entries [] fields = fields
append_entries (e ∷ es) fields = append_entries es (append_attr e.key e.value e.groups fields)

-- slog.Record: the text of its level, and its time unless that is zero.
pub record Record : Type 0 where
  pub level : ℤ
  pub level_text : Str
  pub message : Str
  pub time : Option Value
  pub attrs : Attrs

-- The fields of the attributes, in Handle.
unfoldable pub attr_fields : LogrusHandler → Attrs → LogFields
unfolding append_entries
attr_fields h attrs = append_attrs attrs h.groups (append_entries h.attrs [])

unfoldable pub put_time : Option Value → LogFields → LogFields
put_time none fields = fields
put_time (some time) fields = put (str "slog_time") time fields

-- logrusHandler.Handle
unfoldable pub handle : LogrusHandler → Record → Log → Log
unfolding attr_fields put_time slog_level_to_logrus
handle h r log =
    log_fields (slog_level_to_logrus r.level) r.message
      (put (str "slog_level") (text r.level_text) (put_time r.time (attr_fields h r.attrs))) log

-- logrusHandler.Enabled, over logrus's IsLevelEnabled.
unfoldable pub enabled : (Level → Bool) → ℤ → Bool
unfolding slog_level_to_logrus
enabled is_level_enabled level = is_level_enabled (slog_level_to_logrus level)

-- The entries that WithAttrs adds.
unfoldable pub entries_of : Attrs → List Str → List AttrEntry
entries_of no_attrs groups = []
entries_of (attr key v rest) groups =
    record { key = key; value = v; groups = groups } ∷ entries_of rest groups

-- logrusHandler.WithAttrs
unfoldable pub with_attrs : Attrs → LogrusHandler → LogrusHandler
unfolding entries_of
with_attrs attrs h = record h { attrs = h.attrs ++ entries_of attrs h.groups }

-- logrusHandler.WithGroup
unfoldable pub with_group : Str → LogrusHandler → LogrusHandler
with_group name h = if str_eq name [] then h else record h { groups = h.groups ++ name ∷ [] }
