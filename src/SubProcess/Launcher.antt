-- ===== src/SubProcess/Launcher.antt =====
-- lib/SubProcess/Shell.cpp and lib/SubProcess/ExecFamily.cpp: the exec call that a launcher makes.
-- A launcher returns -1, here `none`, only after its call has failed.
use cpp_framework.Prelude.{
  ◌≡◌, ◌≢◌, refl, true, false, Option, none, some, List, [], ◌∷◌, ◌++◌, Text, text, map,
  if◌then◌else◌, ap, sym, ◌∙◌, arith, length, suc,
}
use cpp_framework.SubProcess.StartInfo.{StartInfo, get_command_line, command_line_joins}

-- The exec calls with what they are given; an array ends with a null pointer.
pub data Exec : Type 0 where
  execl : Text → List (Option Text) → Exec
  execle : Text → List (Option Text) → List (Option Text) → Exec
  execvp : Text → List (Option Text) → Exec
  execvpe : Text → List (Option Text) → List (Option Text) → Exec

abbrev pub null_ended : List Text → List (Option Text)
null_ended texts = map some texts ++ none ∷ []

shell_exec : List (Option Text) → List Text → Exec
shell_exec argv [] = execl (text "/bin/sh") argv
shell_exec argv (env ∷ envs) = execle (text "/bin/sh") argv (null_ended (env ∷ envs))

-- `Shell::launch`.
unfoldable pub shell_launch : StartInfo → Exec
unfolding shell_exec
shell_launch info =
    shell_exec (null_ended (text "sh" ∷ text "-c" ∷ get_command_line info ∷ [])) info.environments

family_exec : Text → List (Option Text) → List Text → Exec
family_exec cmd argv [] = execvp cmd argv
family_exec cmd argv (env ∷ envs) = execvpe cmd argv (null_ended (env ∷ envs))

-- `ExecFamily::launch`.
unfoldable pub exec_family_launch : StartInfo → Exec
unfolding family_exec
exec_family_launch info =
    family_exec info.command (null_ended (info.command ∷ info.arguments)) info.environments

-- The choice of the launcher in `child_process`.
unfoldable pub launch_command : StartInfo → Exec
unfolding shell_launch exec_family_launch
launch_command info = if info.use_shell then shell_launch info else exec_family_launch info

-- The argument vector that a call carries.
unfoldable pub argv_of : Exec → List (Option Text)
argv_of (execl path argv) = argv
argv_of (execle path argv envp) = argv
argv_of (execvp file argv) = argv
argv_of (execvpe file argv envp) = argv

argv_of-family_exec :
    (cmd : Text) (argv : List (Option Text)) (envs : List Text)
    → argv_of (family_exec cmd argv envs) ≡ argv
unfolding argv_of family_exec
argv_of-family_exec cmd argv [] = refl
argv_of-family_exec cmd argv (env ∷ envs) = refl

length-null_ended : (texts : List Text) → length (null_ended texts) ≡ suc (length texts)
length-null_ended [] = refl
length-null_ended (t ∷ ts) = ap suc (length-null_ended ts)

length-split :
    (xs ys : List Text) (a b c : Text) → length (xs ++ a ∷ b ∷ ys) ≡ suc (length (xs ++ c ∷ ys))
length-split [] ys a b c = refl
length-split (x ∷ xs) ys a b c = ap suc (length-split xs ys a b c)

-- Through the shell, two arguments are executed by the very call that executes them joined by a
-- blank as one argument; without the shell the argument vectors of the two calls differ.
pub shell_joins :
    (info : StartInfo) (xs ys : List Text) (a b : Text)
    → let two = record info { arguments = xs ++ a ∷ b ∷ ys } in
      let one = record info { arguments = xs ++ (a ++ text " " ++ b) ∷ ys } in
      (launch_command (record two { use_shell = true })
        ≡ launch_command (record one { use_shell = true }))
      × (argv_of (launch_command (record two { use_shell = false }))
          ≢ argv_of (launch_command (record one { use_shell = false })))
unfolding launch_command shell_launch exec_family_launch get_command_line
shell_joins info xs ys a b =
    let two = record info { arguments = xs ++ a ∷ b ∷ ys } in
    let one = record info { arguments = xs ++ (a ++ text " " ++ b) ∷ ys } in
    let line = command_line_joins info xs ys a b in
    let argv : StartInfo → List (Option Text) = λ i. null_ended (i.command ∷ i.arguments) in
    (
      ap (λ l. shell_exec (null_ended (text "sh" ∷ text "-c" ∷ l ∷ [])) info.environments) line,
      λ e.
          let same : argv two ≡ argv one =
            sym (argv_of-family_exec info.command (argv two) info.environments)
            ∙ e
            ∙ argv_of-family_exec info.command (argv one) info.environments in
          omega (
            arith,
            ap length same,
            length-null_ended (two.command ∷ two.arguments),
            length-null_ended (one.command ∷ one.arguments),
            length-split xs ys a b (a ++ text " " ++ b),
          ),
    )
