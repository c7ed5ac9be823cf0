-- ===== src/Logger.antt =====
-- src/logger.cc: which messages the logger prints. The time stamp, and the path of the
-- file from its first `src/` on, are given.
use osiris_arm.Common.{ℕ, Bytes, codes, List, [], ◌∷◌, ◌++◌, Bool, leb, if◌then◌else◌}
use osiris_arm.Common.Text.{print}

pub data LogLevel : Type 0 where
  error : LogLevel
  warning : LogLevel
  info : LogLevel
  debug : LogLevel

-- the numbers of the enumeration
unfoldable pub level : LogLevel → ℕ
level error = 1
level warning = 2
level info = 3
level debug = 4

-- Logger: its level, and the lines printed so far
pub record Logger : Type 0 where
  pub log_level : LogLevel
  pub printed : List Bytes

-- Logger::Logger
abbrev pub new_logger : Logger
new_logger = record { log_level = warning; printed = [] }

unfoldable pub set_log_level : LogLevel → Logger → Logger
set_log_level l s = record s { log_level = l }

-- `log_level_ >= l`
unfoldable pub is_enabled : LogLevel → Logger → Bool
unfolding level
is_enabled l s = leb (level l) (level s.log_level)

-- colour, time stamp, the rest of the line, and the colour back to normal
unfoldable pub coloured : Bytes → Bytes → Bytes → Bytes
coloured colour timestamp text =
    27 ∷ codes "["
    ++ (colour ++ (codes "m[" ++ (timestamp ++ (codes "]" ++ (text ++ 27 ∷ codes "[0m")))))

print_if : Bool → Bytes → Logger → Logger
print_if enabled line s = if enabled then record s { printed = s.printed ++ line ∷ [] } else s

unfoldable pub log_debug : Bytes → Bytes → Bytes → ℕ → Logger → Logger
unfolding is_enabled coloured print_if print
log_debug timestamp message filename_stripped sourceline s =
    print_if (is_enabled debug s)
      (coloured (codes "36") timestamp (
        codes " DBG("
        ++ (filename_stripped ++ (codes ":" ++ (print 10 sourceline ++ (codes "): " ++ message))))))
      s

unfoldable pub log_info : Bytes → Bytes → Logger → Logger
unfolding is_enabled coloured print_if
log_info timestamp message s =
    print_if (is_enabled info s) (coloured (codes "32") timestamp (codes " INFO: " ++ message)) s

unfoldable pub log_warning : Bytes → Bytes → Logger → Logger
unfolding is_enabled coloured print_if
log_warning timestamp message s =
    print_if (is_enabled warning s) (coloured (codes "35") timestamp (codes " WARN: " ++ message)) s

unfoldable pub log_error : Bytes → Bytes → Logger → Logger
unfolding is_enabled coloured print_if
log_error timestamp message s =
    print_if (is_enabled error s) (coloured (codes "31") timestamp (codes " ERR:  " ++ message)) s
