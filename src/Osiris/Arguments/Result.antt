-- ===== src/Osiris/Arguments/Result.antt =====
-- src/osiris.cc: what ParseArguments makes of the options.
use osiris_arm.Common.{
  ℕ, ◌≡◌, ◌≢◌, refl, sym, ap, ◌∙◌, Bytes, List, [], ◌∷◌, ◌++◌, append-nil, Bool, true, false, ◌||◌,
  ◌⊎◌, inl, inr, Option, none, some, ◌==◌, if◌then◌else◌, ok, exited, arith, All,
}
use osiris_arm.Osiris.Arguments.{
  CommandLineArguments, new_arguments, OptionEvent, parse_option, parse_options, set_confirm_files,
  parse_arguments,
}

-- Whether an option was given.
abbrev pub is_given : ℕ → List OptionEvent → Bool
is_given c [] = false
is_given c ((d, optarg) ∷ events) = d == c || is_given c events

-- The argument of the last `--filter`, or else a given one.
abbrev pub last_filter : Bytes → List OptionEvent → Bytes
last_filter filename [] = filename
last_filter filename ((c, none) ∷ events) = last_filter filename events
last_filter filename ((c, some optarg) ∷ events) =
    last_filter (if c == b'f' then optarg else filename) events

abbrev is_help : ℕ → Bool
is_help c = c == b'h' || c == b'?' || c == b':'

-- What the long options give; `--filter` has an argument.
abbrev pub IsOption : OptionEvent → Type 0
IsOption (c, none) = (c ≡ b'c') ⊎ ((c ≡ b'a') ⊎ ((c ≡ b's') ⊎ (c ≡ b'1')))
IsOption (c, some optarg) = c ≡ b'f'

-- The arguments that options stand for, behind others.
abbrev pub arguments_of : List OptionEvent → CommandLineArguments → CommandLineArguments
arguments_of events a = record a {
  cleanup = a.cleanup || is_given b'c' events;
  all = a.all || is_given b'a' events;
  speculation_trigger = a.speculation_trigger || is_given b's' events;
  filter = a.filter || is_given b'f' events;
  filename_filter = last_filter a.filename_filter events;
  confirm = a.confirm || is_given b'1' events;
}

or-true : (a : Bool) → (a || true) ≡ true
or-true true = refl
or-true false = refl

or-false : (a : Bool) → (a || false) ≡ a
or-false true = refl
or-false false = refl

arguments_of_none : (a : CommandLineArguments) → arguments_of [] a ≡ a
arguments_of_none a = ground (arith, or-false a.cleanup)

-- options that were given already
with_cleanup :
    (events : List OptionEvent) (a : CommandLineArguments)
    → arguments_of events (record a { cleanup = true }) ≡ arguments_of ((b'c', none) ∷ events) a
with_cleanup events a = ground (arith, or-true a.cleanup)

with_all :
    (events : List OptionEvent) (a : CommandLineArguments)
    → arguments_of events (record a { all = true }) ≡ arguments_of ((b'a', none) ∷ events) a
with_all events a = ground (arith, or-true a.all)

with_speculation :
    (events : List OptionEvent) (a : CommandLineArguments)
    → arguments_of events (record a { speculation_trigger = true })
      ≡ arguments_of ((b's', none) ∷ events) a
with_speculation events a = ground (arith, or-true a.speculation_trigger)

with_confirm :
    (events : List OptionEvent) (a : CommandLineArguments)
    → arguments_of events (record a { confirm = true }) ≡ arguments_of ((b'1', none) ∷ events) a
with_confirm events a = ground (arith, or-true a.confirm)

with_filter :
    (filename : Bytes) (events : List OptionEvent) (a : CommandLineArguments)
    → arguments_of events (record a { filter = true; filename_filter = filename })
      ≡ arguments_of ((b'f', some filename) ∷ events) a
with_filter filename events a = ground (arith, or-true a.filter)

parse_options-append :
    (events rest : List OptionEvent) (a : CommandLineArguments)
    → All IsOption events
    → parse_options (events ++ rest) a ≡ parse_options rest (arguments_of events a)
unfolding parse_options
parse_options-append [] rest a h = ap (parse_options rest) (sym (arguments_of_none a))
parse_options-append ((c, none) ∷ events) rest a (inl e, hs) = rw e (
    parse_options-append events rest (record a { cleanup = true }) hs
    ∙ ap (parse_options rest) (with_cleanup events a))
parse_options-append ((c, none) ∷ events) rest a (inr (inl e), hs) = rw e (
    parse_options-append events rest (record a { all = true }) hs
    ∙ ap (parse_options rest) (with_all events a))
parse_options-append ((c, none) ∷ events) rest a (inr (inr (inl e)), hs) = rw e (
    parse_options-append events rest (record a { speculation_trigger = true }) hs
    ∙ ap (parse_options rest) (with_speculation events a))
parse_options-append ((c, none) ∷ events) rest a (inr (inr (inr e)), hs) = rw e (
    parse_options-append events rest (record a { confirm = true }) hs
    ∙ ap (parse_options rest) (with_confirm events a))
parse_options-append ((c, some filename) ∷ events) rest a (e, hs) = rw e (
    parse_options-append events rest (record a { filter = true; filename_filter = filename }) hs
    ∙ ap (parse_options rest) (with_filter filename events a))

pub parse_options_lem :
    (events : List OptionEvent) (a : CommandLineArguments)
    → All IsOption events
    → parse_options events a ≡ ok (arguments_of events a)
unfolding parse_options
parse_options_lem events a h =
    ap (λ es. parse_options es a) (sym (append-nil events)) ∙ parse_options-append events [] a h

-- the files are looked for when `--confirm` was given
pub parse_arguments-options :
    (events : List OptionEvent) (positional : List Bytes)
    → All IsOption events
    → parse_arguments events positional ≡ (
        if is_given b'1' events
        then set_confirm_files positional (arguments_of events new_arguments)
        else ok (arguments_of events new_arguments))
unfolding parse_arguments
parse_arguments-options events positional h = rw (parse_options_lem events new_arguments h) refl

-- Options in any order and number stand for the flags of those that were given, and `--filter` for the
-- argument of its last use. With `--confirm` the first argument behind the options is the input file
-- and the second the output file, whatever follows, and the program exits with 1 when there are less
-- than two. Without `--confirm` the arguments behind the options are left alone.
pub parse_arguments_lem :
    (events : List OptionEvent) (input output : Bytes) (rest : List Bytes)
    → All IsOption events
    → (parse_arguments events []
        ≡ (if is_given b'1' events then exited 1 else ok (arguments_of events new_arguments)))
      × (parse_arguments events (input ∷ [])
          ≡ (if is_given b'1' events then exited 1 else ok (arguments_of events new_arguments)))
      × (parse_arguments events (input ∷ output ∷ rest) ≡ (
          if is_given b'1' events
          then ok (record (arguments_of events new_arguments) {
            filename_confirm_input = input;
            filename_confirm_output = output;
          })
          else ok (arguments_of events new_arguments)))
unfolding set_confirm_files
parse_arguments_lem events input output rest h = (
  parse_arguments-options events [] h,
  parse_arguments-options events (input ∷ []) h,
  parse_arguments-options events (input ∷ output ∷ rest) h,
)

-- A character that stands for no option of the program.
abbrev pub IsNoOption : ℕ → Type 0
IsNoOption c = (c ≢ b'0') × (c ≢ b'c') × (c ≢ b'a') × (c ≢ b's') × (c ≢ b'1') × (c ≢ b'f')

parse_option-exited :
    (c : ℕ) (optarg : Option Bytes) (a : CommandLineArguments)
    → IsNoOption c
    → parse_option (c, optarg) a ≡ exited (if is_help c then 0 else 1)
unfolding parse_option
parse_option-exited c optarg a h = ground arith

-- Behind options, a request for help or an option that `getopt_long` refuses ends the program with 0 and a
-- character that stands for no option with 1, whatever stands behind it.
pub parse_arguments-exited :
    (events rest : List OptionEvent) (c : ℕ) (optarg : Option Bytes) (positional : List Bytes)
    → All IsOption events
    → IsNoOption c
    → parse_arguments (events ++ (c, optarg) ∷ rest) positional
      ≡ exited (if is_help c then 0 else 1)
unfolding parse_arguments parse_options
parse_arguments-exited events rest c optarg positional h unknown =
    rw
      (
        parse_options-append events ((c, optarg) ∷ rest) new_arguments h,
        parse_option-exited c optarg (arguments_of events new_arguments) unknown,
      )
      refl
