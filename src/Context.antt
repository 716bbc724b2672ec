-- ===== src/Context.antt =====
-- What the checks read beside the file and their state: the file system, the properties of
-- characters, the settings, and the pattern `'^' + _root + os.sep`, compiled.
use core_arbiter.Prelude.{Option}
use core_arbiter.Regex.{Regex}
use core_arbiter.Settings.{Settings}
use core_arbiter.Checks.Width.{UnicodeData}
use core_arbiter.Files.System.{FileSystem}

pub record Context : Type 0 where
  pub files : FileSystem
  pub unicode : UnicodeData
  pub settings : Settings
  pub root_pattern : Option Regex
