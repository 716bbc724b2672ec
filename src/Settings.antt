-- ===== src/Settings.antt =====
-- The settings of scripts/cpplint.py that flags and configuration files set: `_root`, `_line_length`,
-- `_valid_extensions` and `_hpp_headers`.
use core_arbiter.Prelude.{Bool, Option, none, List, [], ◌∷◌, ◌++◌}
use core_arbiter.Prelude.Int.{ℤ, pos}
use core_arbiter.Str.{Str, codes, is_in, split}

-- The sets are lists of their items.
pub record Settings : Type 0 where
  pub root : Option Str
  pub line_length : ℤ
  pub valid_extensions : List Str
  pub hpp_headers : List Str

abbrev pub initial_settings : Settings
initial_settings = record {
  root = none;
  line_length = pos 80;
  valid_extensions = codes "cc" ∷ codes "h" ∷ codes "cpp" ∷ codes "cu" ∷ codes "cuh" ∷ [];
  hpp_headers = codes "h" ∷ [];
}

unfoldable pub process_hpp_headers_option : Str → Settings → Settings
unfolding split
process_hpp_headers_option val s = record s {
  hpp_headers = split b',' val;
  valid_extensions = split b',' val ++ s.valid_extensions;
}

unfoldable pub is_header_extension : Str → Settings → Bool
is_header_extension file_extension s = is_in file_extension s.hpp_headers
