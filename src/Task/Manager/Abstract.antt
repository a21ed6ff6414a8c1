-- ===== src/Task/Manager/Abstract.antt =====
-- The manager with the order of its map forgotten, as std::unordered_map leaves it open: managers
-- are one where every name is found alike.
use mathlib.Core.Quot
use mathlib.Core.Quot.{Quot, Quot-set}
use native.Mathlib.Nat.{ℕ_set}
use mathlib.Core.Bool.{Bool-set}
use cpp_framework.Prelude.{
  ℕ, ◌≡◌, ◌≢◌, refl, sym, ◌∙◌, ap, Bool, true, false, none, some, List, ◌∷◌, Text, ite, if_pos,
  if_neg, is_some, if◌then◌else◌,
}
use cpp_framework.Prelude.Map.{text_key, find, times}
use cpp_framework.Task.Manager.{has_task, task_names}
use cpp_framework.Task.Manager.Registry.{
  Call, registered, unregistered, after, latest, find-after, times-after, once,
}

-- Two tests of one value against different ones.
ite-swap :
    {A : Type 0} {n m k : Text} (d : Dec (n ≡ k)) (e : Dec (m ≡ k)) (a b c : A)
    → n ≢ m
    → ite d a (ite e b c) ≡ ite e b (ite d a c)
ite-swap (yes p) (yes q) a b c h = absurd (h (p ∙ sym q))
ite-swap (yes p) (no q) a b c h = refl
ite-swap (no p) e a b c h = refl

ite-else :
    {A : Type 0} {n k : Text} (d : Dec (n ≡ k)) (a : A) {b c : A}
    → (n ≢ k → b ≡ c)
    → ite d a b ≡ ite d a c
ite-else (yes p) a h = refl
ite-else (no p) a h = h p

module _ {C W : Type 0} where
  -- Calls after which every name is found alike.
  abbrev pub SameTasks : List (Call C W) → List (Call C W) → Type 0
  SameTasks cs ds = (name : Text) → find name (after cs).tasks ≡ find name (after ds).tasks

  SameTasks-latest :
      (cs ds : List (Call C W))
      → ((name : Text) → latest name cs ≡ latest name ds)
      → SameTasks cs ds
  SameTasks-latest cs ds h name = find-after name cs ∙ h name ∙ sym (find-after name ds)

  latest-SameTasks :
      (cs ds : List (Call C W)) (name : Text) → SameTasks cs ds → latest name cs ≡ latest name ds
  latest-SameTasks cs ds name h = sym (find-after name cs) ∙ h name ∙ find-after name ds

  pub SameTasks-cons :
      (c : Call C W) (cs ds : List (Call C W)) → SameTasks cs ds → SameTasks (c ∷ cs) (c ∷ ds)
  unfolding latest
  SameTasks-cons (registered n none) cs ds h =
      SameTasks-latest _ _ (λ name. latest-SameTasks cs ds name h)
  SameTasks-cons (registered n (some task)) cs ds h =
      SameTasks-latest _ _
        (λ name. ap (ite (text_key.key_eq n name) (some task)) (latest-SameTasks cs ds name h))
  SameTasks-cons (unregistered n) cs ds h =
      SameTasks-latest _ _
        (λ name. ap (ite (text_key.key_eq n name) none) (latest-SameTasks cs ds name h))

  pub SameTasks-has :
      (name : Text) (cs ds : List (Call C W))
      → SameTasks cs ds
      → has_task (after cs) name ≡ has_task (after ds) name
  unfolding has_task
  SameTasks-has name cs ds h = ap is_some (h name)

  pub SameTasks-names :
      (name : Text) (cs ds : List (Call C W))
      → SameTasks cs ds
      → times name (task_names (after cs)) ≡ times name (task_names (after ds))
  SameTasks-names name cs ds h =
      times-after name cs ∙ ap once (latest-SameTasks cs ds name h) ∙ sym (times-after name ds)

abbrev pub Registry : Type 0 → Type 0 → Type 0
Registry C W = Quot (SameTasks {C = C} {W = W})

module _ {C W : Type 0} where
  abbrev pub name_of : Call C W → Text
  name_of (registered name task) = name
  name_of (unregistered name) = name

  -- Whether a call registers a null pointer.
  abbrev pub is_null : Call C W → Bool
  is_null (registered name none) = true
  is_null (registered name (some task)) = false
  is_null (unregistered name) = false

  abbrev pub call : Call C W → Registry C W → Registry C W
  call c =
      Quot.lift Quot-set (λ cs. Quot.mk (c ∷ cs)) (λ cs ds h. Quot.sound (SameTasks-cons c cs ds h))

  abbrev pub has : Text → Registry C W → Bool
  has name = Quot.lift Bool-set (λ cs. has_task (after cs) name) (SameTasks-has name)

  -- How often a name is listed.
  abbrev pub listed : Text → Registry C W → ℕ
  listed name = Quot.lift ℕ_set (λ cs. times name (task_names (after cs))) (SameTasks-names name)

  -- Two ways to call that lead to the same answers lead to the same registry.
  alike :
      (e f : Registry C W → Registry C W) (e' f' : List (Call C W) → List (Call C W))
      → ((cs : List (Call C W)) → e (Quot.mk cs) ≡ Quot.mk (e' cs))
      → ((cs : List (Call C W)) → f (Quot.mk cs) ≡ Quot.mk (f' cs))
      → ((cs : List (Call C W)) (name : Text) → latest name (e' cs) ≡ latest name (f' cs))
      → (r : Registry C W) → e r ≡ f r
  alike e f e' f' he hf same =
      Quot.ind (λ r. Quot-set _ _)
        (λ cs. he cs ∙ Quot.sound (SameTasks-latest (e' cs) (f' cs) (same cs)) ∙ sym (hf cs))

  -- A call about a name does not touch another, as what the name stands for goes.
  latest-swap :
      (c d : Call C W) (cs : List (Call C W)) (k : Text)
      → name_of c ≢ name_of d
      → latest k (c ∷ d ∷ cs) ≡ latest k (d ∷ c ∷ cs)
  unfolding latest
  latest-swap (registered n none) (registered m none) cs k h = refl
  latest-swap (registered n none) (registered m (some u)) cs k h = refl
  latest-swap (registered n none) (unregistered m) cs k h = refl
  latest-swap (registered n (some t)) (registered m none) cs k h = refl
  latest-swap (registered n (some t)) (registered m (some u)) cs k h =
      ite-swap (text_key.key_eq n k) (text_key.key_eq m k) (some t) (some u) _ h
  latest-swap (registered n (some t)) (unregistered m) cs k h =
      ite-swap (text_key.key_eq n k) (text_key.key_eq m k) (some t) none _ h
  latest-swap (unregistered n) (registered m none) cs k h = refl
  latest-swap (unregistered n) (registered m (some u)) cs k h =
      ite-swap (text_key.key_eq n k) (text_key.key_eq m k) none (some u) _ h
  latest-swap (unregistered n) (unregistered m) cs k h =
      ite-swap (text_key.key_eq n k) (text_key.key_eq m k) none none _ h

  latest-skip :
      (d : Call C W) (cs : List (Call C W)) (k : Text)
      → name_of d ≢ k
      → latest k (d ∷ cs) ≡ latest k cs
  unfolding latest
  latest-skip (registered n none) cs k h = refl
  latest-skip (registered n (some t)) cs k h = if_neg (text_key.key_eq n k) h (some t) (latest k cs)
  latest-skip (unregistered n) cs k h = if_neg (text_key.key_eq n k) h none (latest k cs)

  -- The calls by which a name is registered or taken back make the calls about it before void.
  latest-void :
      (c d : Call C W) (cs : List (Call C W)) (k : Text)
      → name_of c ≡ name_of d
      → is_null c ≡ false
      → latest k (c ∷ d ∷ cs) ≡ latest k (c ∷ cs)
  unfolding latest
  latest-void (registered n none) d cs k h e = absurd cc
  latest-void (registered n (some t)) d cs k h e =
      ite-else (text_key.key_eq n k) (some t) (λ p. latest-skip d cs k (λ q. p (h ∙ q)))
  latest-void (unregistered n) d cs k h e =
      ite-else (text_key.key_eq n k) none (λ p. latest-skip d cs k (λ q. p (h ∙ q)))

  -- Whether a call registers a task.
  abbrev pub registers : Call C W → Bool
  registers (registered name none) = false
  registers (registered name (some task)) = true
  registers (unregistered name) = false

  latest-own :
      (c : Call C W) (cs : List (Call C W))
      → is_null c ≡ false
      → (is_some (latest (name_of c) (c ∷ cs)) ≡ registers c)
        × (once (latest (name_of c) (c ∷ cs)) ≡ (if registers c then 1 else 0))
  unfolding latest once
  latest-own (registered n none) cs e = absurd cc
  latest-own (registered n (some t)) cs e =
      let own = if_pos (text_key.key_eq n n) refl (some t) (latest n cs) in
      (ap is_some own, ap once own)
  latest-own (unregistered n) cs e =
      let own = if_pos (text_key.key_eq n n) refl none (latest n cs) in
      (ap is_some own, ap once own)

  has-latest :
      (name : Text) (cs : List (Call C W)) → has name (Quot.mk cs) ≡ is_some (latest name cs)
  unfolding has_task
  has-latest name cs = ap is_some (find-after name cs)

  -- Two views of a registry that agree on every history of calls.
  seen :
      {B : Type 0}
      → IsSet B
      → (f g : Registry C W → B) → ((cs : List (Call C W)) → f (Quot.mk cs) ≡ g (Quot.mk cs))
      → (r : Registry C W) → f r ≡ g r
  seen set f g h = Quot.ind (λ r. set (f r) (g r)) h

  -- A manager, with the order of its map and of the calls about different names forgotten. For two
  -- calls of register_task or unregister_task about different names, and a third about the first
  -- one's name, where the first does not register a null pointer: the first two can change places;
  -- the first makes the third, before it, void; it says whether has_task finds its name, which
  -- task_names then lists once or not at all; and of the other name it changes neither.
  pub registry_laws :
      (c d e : Call C W) (r : Registry C W)
      → name_of c ≢ name_of d
      → name_of c ≡ name_of e
      → is_null c ≡ false
      → (call c (call d r) ≡ call d (call c r))
        × (call c (call e r) ≡ call c r)
        × (has (name_of c) (call c r) ≡ registers c)
        × (listed (name_of c) (call c r) ≡ (if registers c then 1 else 0))
        × (has (name_of d) (call c r) ≡ has (name_of d) r)
        × (listed (name_of d) (call c r) ≡ listed (name_of d) r)
  registry_laws c d e r apart same real = (
    alike (λ r. call c (call d r)) (λ r. call d (call c r)) (λ cs. c ∷ d ∷ cs) (λ cs. d ∷ c ∷ cs)
        (λ cs. refl) (λ cs. refl) (λ cs k. latest-swap c d cs k apart) r,
    alike (λ r. call c (call e r)) (call c) (λ cs. c ∷ e ∷ cs) (λ cs. c ∷ cs) (λ cs. refl)
        (λ cs. refl) (λ cs k. latest-void c e cs k same real) r,
    seen Bool-set (λ r. has (name_of c) (call c r)) (λ r. registers c)
        (λ cs. has-latest (name_of c) (c ∷ cs) ∙ (latest-own c cs real).0) r,
    seen ℕ_set (λ r. listed (name_of c) (call c r)) (λ r. if registers c then 1 else 0)
        (λ cs. times-after (name_of c) (c ∷ cs) ∙ (latest-own c cs real).1) r,
    seen Bool-set (λ r. has (name_of d) (call c r)) (has (name_of d))
        (λ cs.
          has-latest (name_of d) (c ∷ cs)
          ∙ ap is_some (latest-skip c cs (name_of d) apart)
          ∙ sym (has-latest (name_of d) cs))
        r,
    seen ℕ_set (λ r. listed (name_of d) (call c r)) (listed (name_of d))
        (λ cs.
          times-after (name_of d) (c ∷ cs)
          ∙ ap once (latest-skip c cs (name_of d) apart)
          ∙ sym (times-after (name_of d) cs))
        r,
  )
