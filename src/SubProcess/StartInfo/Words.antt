-- ===== src/SubProcess/StartInfo/Words.antt =====
-- The command line of lib/SubProcess/StartInfo.cpp taken apart again at its blanks, as a shell does.
use mathlib.Core.List.{append_assoc}
use cpp_framework.Prelude.{
  ℕ, ◌≡◌, refl, ap, ◌∙◌, false, List, [], ◌∷◌, ◌++◌, Text, text, All, ◌==◌, if◌then◌else◌,
}
use cpp_framework.SubProcess.StartInfo.{
  StartInfo, append_arguments, get_command_line, set_arguments, command,
}

abbrev pub blank : ℕ
blank = 32

-- A character in front of the first word.
abbrev add_front : ℕ → List Text → List Text
add_front c [] = (c ∷ []) ∷ []
add_front c (w ∷ ws) = (c ∷ w) ∷ ws

-- The words between the blanks: one more than there are blanks.
unfoldable pub words : Text → List Text
words [] = [] ∷ []
words (c ∷ cs) = let rest = words cs in if c == blank then [] ∷ rest else add_front c rest

-- A word has no blank.
abbrev pub IsWord : Text → Type 0
IsWord = All (λ c. (c == blank) ≡ false)

words-word : (w : Text) → IsWord w → words w ≡ w ∷ []
unfolding words
words-word [] h = refl
words-word (c ∷ cs) h = rw (h.0, words-word cs h.1) refl

words-append : (w t : Text) → IsWord w → words (w ++ blank ∷ t) ≡ w ∷ words t
unfolding words
words-append [] t h = refl
words-append (c ∷ cs) t h = rw (h.0, words-append cs t h.1) refl

append_arguments-prefix :
    (p r : Text) (args : List Text) → append_arguments (p ++ r) args ≡ p ++ append_arguments r args
unfolding append_arguments
append_arguments-prefix p r [] = refl
append_arguments-prefix p r (a ∷ args) =
    let joined : p ++ r ++ text " " ++ a ≡ p ++ (r ++ text " " ++ a) =
      ap (λ t. t ++ a) (append_assoc p r (text " ")) ∙ append_assoc p (r ++ text " ") a in
    ap (λ t. append_arguments t args) joined ∙ append_arguments-prefix p (r ++ text " " ++ a) args

words-arguments :
    (c : Text) (args : List Text)
    → IsWord c
    → All IsWord args
    → words (append_arguments c args) ≡ c ∷ args
unfolding append_arguments
words-arguments c [] h hs = words-word c h
words-arguments c (a ∷ args) h hs =
    ap words (
      append_arguments-prefix (c ++ text " ") a args
      ∙ append_assoc c (text " ") (append_arguments a args))
    ∙ words-append c (append_arguments a args) h
    ∙ ap (λ ws. c ∷ ws) (words-arguments a args hs.0 hs.1)

-- The command line of an object whose arguments were set by a list, taken apart at its blanks, is
-- the command followed by these arguments, if neither the command nor an argument has a blank.
pub words-command_line :
    (info : StartInfo) (args : List Text)
    → IsWord (command info)
    → All IsWord args
    → words (get_command_line (set_arguments args info)) ≡ command info ∷ args
unfolding get_command_line set_arguments command
words-command_line info args h hs = words-arguments info.command args h hs
