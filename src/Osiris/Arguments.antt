-- ===== src/Osiris/Arguments.antt =====
-- src/osiris.cc: ParseArguments. What `getopt_long` gives is a parameter: its results before -1, each with
-- `optarg`, and the arguments from `optind` on.
pub mod Result
use osiris_arm.Common.{
  ℕ, Bytes, List, [], ◌∷◌, Bool, true, false, ◌||◌, Option, none, some, ◌==◌, if◌then◌else◌,
  Outcome, ok, exited, undefined, ◌>>=◌,
}

pub record CommandLineArguments : Type 0 where
  pub cleanup : Bool
  pub all : Bool
  pub speculation_trigger : Bool
  pub filter : Bool
  pub filename_filter : Bytes
  pub confirm : Bool
  pub filename_confirm_input : Bytes
  pub filename_confirm_output : Bytes

abbrev pub new_arguments : CommandLineArguments
new_arguments = record {
  cleanup = false;
  all = false;
  speculation_trigger = false;
  filter = false;
  filename_filter = [];
  confirm = false;
  filename_confirm_input = [];
  filename_confirm_output = [];
}

-- A result of `getopt_long` and `optarg`, `none` for a null pointer.
abbrev pub OptionEvent : Type 0
OptionEvent = ℕ × Option Bytes

-- `std::string(optarg)`
unfoldable pub set_filter : Option Bytes → CommandLineArguments → Outcome CommandLineArguments
set_filter none a = undefined
set_filter (some filename) a = ok (record a { filter = true; filename_filter = filename })

-- the `switch`
unfoldable pub parse_option : OptionEvent → CommandLineArguments → Outcome CommandLineArguments
unfolding set_filter
parse_option (c, optarg) a =
    if c == b'0'
    then ok a
    else if c == b'c'
    then ok (record a { cleanup = true })
    else if c == b'a'
    then ok (record a { all = true })
    else if c == b's'
    then ok (record a { speculation_trigger = true })
    else if c == b'1'
    then ok (record a { confirm = true })
    else if c == b'f'
    then set_filter optarg a
    else if c == b'h' || c == b'?' || c == b':'
    then exited 0
    else exited 1

unfoldable pub parse_options :
    List OptionEvent → CommandLineArguments → Outcome CommandLineArguments
unfolding parse_option
parse_options [] a = ok a
parse_options (event ∷ events) a = do next ← parse_option event a; parse_options events next

-- `argv[optind]` and `argv[optind + 1]`, behind which stands a null pointer
unfoldable pub set_confirm_files : List Bytes → CommandLineArguments → Outcome CommandLineArguments
set_confirm_files (input ∷ output ∷ rest) a =
    ok (record a { filename_confirm_input = input; filename_confirm_output = output })
set_confirm_files other a = exited 1

unfoldable pub parse_arguments : List OptionEvent → List Bytes → Outcome CommandLineArguments
unfolding parse_options set_confirm_files
parse_arguments events positional = do
  a ← parse_options events new_arguments
  (if a.confirm then set_confirm_files positional a else ok a)
