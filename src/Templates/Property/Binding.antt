-- ===== src/Templates/Property/Binding.antt =====
-- Properties that are assigned to, values and each other, in any order.
use cpp_framework.Prelude.{
  ℕ, ◌≡◌, ◌≢◌, refl, ◌==◌, true, false, some, List, [], ◌∷◌, map, get_elem?, set, All, All-set,
  All-get_elem?, arith, if◌then◌else◌, ◌∙◌,
}
use cpp_framework.Templates.Property.{
  Store, write, Writable, new_read_only, new_writable, read, assign, rebind,
}

-- A property is coherent if it reads the variable that it writes.
abbrev pub IsCoherent : Writable → Type 0
IsCoherent p = p.read_only.value ≡ p.mutable_ref

pub record Objects (T : Type 0) : Type 0 where
  pub properties : List Writable
  pub variables : Store T

-- Properties made for variables and then assigned to by their index, and changes of the variables
-- beside them.
pub data Reached {T : Type 0} (update : T → T → T) : Objects T → Type 0 where
  made :
      (places : List ℕ) (s : Store T)
      → Reached update (record { properties = map new_writable places; variables = s })
  written :
      (o : Objects T) (p : Writable) (i : ℕ) (value : T)
      → Reached update o
      → get_elem? o.properties i ≡ some p
      → Reached update (record o { variables = assign update p value o.variables })
  changed :
      (o : Objects T) (place : ℕ) (value : T)
      → Reached update o
      → Reached update (record o { variables = write place value o.variables })
  rebound :
      (o : Objects T) (p r : Writable) (i j : ℕ)
      → Reached update o
      → get_elem? o.properties i ≡ some p
      → get_elem? o.properties j ≡ some r
      → Reached update (record o { properties = set o.properties i (rebind p r) })

made-IsCoherent : (places : List ℕ) → All IsCoherent (map new_writable places)
unfolding new_writable new_read_only
made-IsCoherent [] = tt
made-IsCoherent (place ∷ places) = (refl, made-IsCoherent places)

-- A written variable as it is read through a getter.
read_write :
    {T R : Type 0} (get : T → R) (place other : ℕ) (value : T) (s : Store T)
    → get (write place value s other) ≡ (if other == place then get value else get (s other))
unfolding write
read_write get place other value s = ground arith

module _ {T : Type 0} {update : T → T → T} where
  Reached-IsCoherent : {o : Objects T} → Reached update o → All IsCoherent o.properties
  unfolding rebind
  Reached-IsCoherent (made places s) = made-IsCoherent places
  Reached-IsCoherent (written o p i value r e) = Reached-IsCoherent r
  Reached-IsCoherent (changed o place value r) = Reached-IsCoherent r
  Reached-IsCoherent (rebound o p q i j r e f) =
      let all = Reached-IsCoherent r in
      All-set IsCoherent o.properties i (rebind p q) (All-get_elem? IsCoherent o.properties j all f)
        all

  -- Whatever was assigned before, values, properties to each other, or variables: a value assigned
  -- to one property is read, through the setter and the getter, from each property that stands for
  -- the same variable, and every other property reads what it read before.
  pub property_reads_back :
      {R : Type 0} (get : T → R) {o : Objects T} (p q : Writable) (i j : ℕ) (value : T)
      → Reached update o
      → get_elem? o.properties i ≡ some p
      → get_elem? o.properties j ≡ some q
      → read get q.read_only (assign update p value o.variables) ≡ (
          if q.mutable_ref == p.mutable_ref
          then get (update (o.variables p.mutable_ref) value)
          else read get q.read_only o.variables)
  unfolding read assign
  property_reads_back get {o = o} p q i j value r e f =
      let coherent = All-get_elem? IsCoherent o.properties j (Reached-IsCoherent r) f in
      rw coherent (
        read_write get p.mutable_ref q.mutable_ref (update (o.variables p.mutable_ref) value)
          o.variables)

  -- A property assigned to another does not pass its value on: the other then stands for its
  -- variable, so the next value assigned to it goes there, and a property that still stands for the
  -- variable that it had, a different one, reads what it read before.
  pub assigned_property_rebinds :
      {R : Type 0} (get : T → R) {o : Objects T} (p q r : Writable) (i j k : ℕ) (value : T)
      → Reached update o
      → get_elem? o.properties i ≡ some p
      → get_elem? o.properties j ≡ some q
      → get_elem? o.properties k ≡ some r
      → p.mutable_ref ≢ r.mutable_ref
      → q.mutable_ref ≡ p.mutable_ref
      → let s = assign update (rebind p r) value o.variables in
        (read get (rebind p r).read_only o.variables ≡ read get r.read_only o.variables)
        × (read get (rebind p r).read_only s ≡ get (update (o.variables r.mutable_ref) value))
        × (read get r.read_only s ≡ get (update (o.variables r.mutable_ref) value))
        × (read get q.read_only s ≡ read get q.read_only o.variables)
  unfolding rebind read assign
  assigned_property_rebinds get {o = o} p q r i j k value reached e f g other same =
      let all = Reached-IsCoherent reached in
      let own = All-get_elem? IsCoherent o.properties k all g in
      let old = All-get_elem? IsCoherent o.properties j all f in
      let new = update (o.variables r.mutable_ref) value in
      let at_r = read_write get r.mutable_ref r.mutable_ref new o.variables in
      let at_q = read_write get r.mutable_ref p.mutable_ref new o.variables in
      let hit : (r.mutable_ref == r.mutable_ref) ≡ true = ground arith in
      let miss : (p.mutable_ref == r.mutable_ref) ≡ false = ground (arith, other) in
      (
        refl,
        rw own (at_r ∙ rw hit refl),
        rw own (at_r ∙ rw hit refl),
        rw (old, same) (at_q ∙ rw miss refl),
      )
