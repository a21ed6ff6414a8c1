-- ===== src/SubProcess/StartInfo.antt =====
-- include/SubProcess/StartInfo.hpp and lib/SubProcess/StartInfo.cpp: a command with its arguments.
pub mod Words
use mathlib.Core.List.{append_assoc}
use cpp_framework.Prelude.{
  ◌≡◌, Bool, false, Option, none, some, List, [], ◌∷◌, ◌++◌, Text, text, map, ap, ◌∙◌,
}

pub record StartInfo : Type 0 where
  pub command : Text
  pub arguments : List Text
  pub environments : List Text
  pub redirect_standard_output : Bool
  pub redirect_standard_error : Bool
  pub use_shell : Bool

unfoldable pub new_start_info : Text → StartInfo
new_start_info command = record {
  command = command;
  arguments = [];
  environments = [];
  redirect_standard_output = false;
  redirect_standard_error = false;
  use_shell = false;
}

-- The accessors of a constant object, and what an assignment through the reference of the other
-- overload makes of an object.
unfoldable pub command : StartInfo → Text
command info = info.command

unfoldable pub set_command : Text → StartInfo → StartInfo
set_command value info = record info { command = value }

unfoldable pub arguments : StartInfo → List Text
arguments info = info.arguments

unfoldable pub set_arguments : List Text → StartInfo → StartInfo
set_arguments value info = record info { arguments = value }

unfoldable pub environments : StartInfo → List Text
environments info = info.environments

unfoldable pub set_environments : List Text → StartInfo → StartInfo
set_environments value info = record info { environments = value }

unfoldable pub redirect_standard_output : StartInfo → Bool
redirect_standard_output info = info.redirect_standard_output

unfoldable pub set_redirect_standard_output : Bool → StartInfo → StartInfo
set_redirect_standard_output value info = record info { redirect_standard_output = value }

unfoldable pub redirect_standard_error : StartInfo → Bool
redirect_standard_error info = info.redirect_standard_error

unfoldable pub set_redirect_standard_error : Bool → StartInfo → StartInfo
set_redirect_standard_error value info = record info { redirect_standard_error = value }

unfoldable pub use_shell : StartInfo → Bool
use_shell info = info.use_shell

unfoldable pub set_use_shell : Bool → StartInfo → StartInfo
set_use_shell value info = record info { use_shell = value }

-- The loop of `get_command_line`, from the result so far.
unfoldable pub append_arguments : Text → List Text → Text
append_arguments result [] = result
append_arguments result (argument ∷ rest) = append_arguments (result ++ text " " ++ argument) rest

unfoldable pub get_command_line : StartInfo → Text
unfolding append_arguments
get_command_line info = append_arguments info.command info.arguments

-- An array of pointers to texts, `none` for the null pointer at its end.
unfoldable pub c_style_environments : StartInfo → List (Option Text)
c_style_environments info = map some info.environments ++ none ∷ []

join_arguments :
    (r : Text) (xs ys : List Text) (a b : Text)
    → append_arguments r (xs ++ a ∷ b ∷ ys) ≡ append_arguments r (xs ++ (a ++ text " " ++ b) ∷ ys)
unfolding append_arguments
join_arguments r [] ys a b =
    let start = r ++ text " " in
    ap (λ t. append_arguments (t ++ b) ys) (append_assoc start a (text " "))
    ∙ ap (λ t. append_arguments t ys) (append_assoc start (a ++ text " ") b)
join_arguments r (x ∷ xs) ys a b = join_arguments (r ++ text " " ++ x) xs ys a b

pub command_line_joins :
    (info : StartInfo) (xs ys : List Text) (a b : Text)
    → get_command_line (record info { arguments = xs ++ a ∷ b ∷ ys })
      ≡ get_command_line (record info { arguments = xs ++ (a ++ text " " ++ b) ∷ ys })
unfolding get_command_line
command_line_joins info xs ys a b = join_arguments info.command xs ys a b
