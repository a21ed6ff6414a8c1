-- ===== src/Tests/Properties.antt =====
-- Properties over two variables: 10 at place 0, with two properties, and 20 at place 1, with one.
use cpp_framework.Prelude.{ℕ, ◌≡◌, refl, ◌==◌, if◌then◌else◌, List, [], ◌∷◌}
use cpp_framework.Templates.Property.{Store, new_writable, read, assign, default_get, default_set}
use cpp_framework.Templates.Property.Binding.{Objects, Reached, made, property_reads_back}

abbrev places : List ℕ
places = 0 ∷ 0 ∷ 1 ∷ []

abbrev variables : Store ℕ
variables place = if place == 0 then 10 else 20

abbrev start : Objects ℕ
start = record {
  properties = new_writable 0 ∷ new_writable 0 ∷ new_writable 1 ∷ [];
  variables = variables;
}

start_made : Reached default_set start
start_made = made places variables

-- 15 through the first property is read from the second.
property_reads_back_example :
    read default_get (new_writable 0).read_only (assign default_set (new_writable 0) 15 variables)
    ≡ 15
unfolding default_get default_set new_writable
property_reads_back_example =
    property_reads_back default_get (new_writable 0) (new_writable 0) 0 1 15 start_made refl refl
