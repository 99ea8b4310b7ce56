-- ===== src/Protocol/FtpRequest.antt =====
-- protocol/ftp/request/src/ftp_parser.{hpp,cpp}
pub mod Parsing
pub mod Commands
pub mod Undefined
use in_memory_object_storage.Common.{
  ℕ, Bool, true, false, List, [], ◌∷◌, Option, none, some, ltb, if◌then◌else◌, length, take, ◌-◌,
  get_elem?, Outcome, ok, throws, undefined, ◌>>=◌, or_undefined,
}
use in_memory_object_storage.Common.Text.{Bytes, codes}
use in_memory_object_storage.Common.Dict.{Dict, lookup}
use in_memory_object_storage.Utils.Split.{split}
use in_memory_object_storage.Utils.Case.{to_upper_case}

pub data FtpCommand : Type 0 where
  list retr stor dele user pass pasv type cwd quit unrecognized : FtpCommand

pub record FtpParser : Type 0 where
  pub valid : Bool
  pub command : FtpCommand
  pub tokens : List Bytes

abbrev pub command_map : Dict FtpCommand
command_map =
    (codes "LIST", list)
    ∷ (codes "RETR", retr)
    ∷ (codes "STOR", stor)
    ∷ (codes "DELE", dele)
    ∷ (codes "PASS", pass)
    ∷ (codes "USER", user)
    ∷ (codes "PASV", pasv)
    ∷ (codes "TYPE", type)
    ∷ (codes "CWD", cwd)
    ∷ (codes "QUIT", quit)
    ∷ []

-- `kCommandMap.at(command)`: an exception for a name that is missing, which the constructor
-- catches; `valid_` and `command_` then keep their first values, and `tokens_` is set.
unfoldable pub with_command : Option FtpCommand → List Bytes → FtpParser
with_command none tokens = record { valid = false; command = unrecognized; tokens = tokens }
with_command (some command) tokens = record { valid = true; command = command; tokens = tokens }

-- `remove_suffix(2)` of a view that is shorter is undefined.
unfoldable pub remove_suffix : ℕ → Bytes → Outcome Bytes
remove_suffix n view = if ltb (length view) n then undefined else ok (take (length view - n) view)

unfoldable pub lookup_command : Bytes → Outcome (Option FtpCommand)
lookup_command name = do upper ← to_upper_case name; ok (lookup upper command_map)

unfoldable pub parse : Bytes → Outcome FtpParser
unfolding with_command remove_suffix lookup_command
parse [] = ok (record { valid = false; command = unrecognized; tokens = [] })
parse (c ∷ buffer) = do
  view ← remove_suffix 2 (c ∷ buffer)
  tokens ← split view (codes " ")
  name ← or_undefined (get_elem? tokens 0)
  command ← lookup_command name
  ok (with_command command tokens)
