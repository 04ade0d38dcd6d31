-- ===== src/Module.antt =====
-- kernel/module.c: the modules that are registered and loaded; and kernel/modules/module.c: the calls
-- of a module by its number. `W` is the state behind the functions of the modules. Both return
-- negative numbers for errors; the -1 of kernel/module.c is that of EPERM.
use trollos.Base.{
  ℕ, zero, suc, ◌+◌, Bool, true, false, not, Option, none, some, List, [], ◌∷◌, if◌then◌else◌, ltb,
  update, find_first, ret, fail, fault, diverge, Cmd, throw, crash, ◌>>=◌, eperm, einval,
}
use trollos.Base.Int.{ℤ, pos, ltℤ}
use trollos.CString.{str_eq}

abbrev pub modules_max : ℕ
modules_max = 32

-- `struct Module`. `init` is called with its arguments.
pub record Module (W : Type 0) : Type 0 where
  pub name : List ℕ
  pub depends : Option (List (List ℕ))
  pub init : List (List ℕ) → W → ℤ × W

-- `_module_registered` and `_module_loaded`.
pub record Modules (W : Type 0) : Type 0 where
  pub registered : ℕ → Option (Module W)
  pub loaded : ℕ → Option (Module W)
  pub world : W

module _ {W : Type 0} where
  abbrev pub is_free_slot : Option (Module W) → Bool
  is_free_slot none = true
  is_free_slot (some m) = false

  -- The loop of `module_register`, for `n` more slots from `i` on: none where a module of the
  -- name is found, else the last free slot.
  unfoldable pub registered_scan :
      List ℕ → (ℕ → Option (Module W)) → ℕ → ℕ → Option ℕ → Option (Option ℕ)
  registered_scan name slots zero i free_spot = some free_spot
  registered_scan name slots (suc n) i free_spot =
      let here = if is_free_slot (slots i) then some i else free_spot in
      let rest = registered_scan name slots n (i + 1) here in
      elim (slots i) [ none ↦ rest | some m ↦ if str_eq name m.name then none else rest ]

  -- `module_register`
  unfoldable pub module_register : Option (Module W) → Cmd (Modules W) (Unit {0})
  module_register none s = fail eperm s
  module_register (some candidate) s =
      elim (registered_scan candidate.name s.registered modules_max 0 none) [
        | none ↦ fail eperm s
        | some found ↦ elim found [
          | none ↦ fail eperm s
          | some i ↦ ret tt (record s { registered = update s.registered i (some candidate) })
        ]
      ]

  -- The loop of `module_is_loaded`.
  unfoldable pub loaded_scan : List ℕ → (ℕ → Option (Module W)) → ℕ → ℕ → Bool
  loaded_scan name slots zero i = false
  loaded_scan name slots (suc n) i =
      let rest = loaded_scan name slots n (i + 1) in
      elim (slots i) [ none ↦ rest | some m ↦ if str_eq name m.name then true else rest ]

  unfoldable pub module_is_loaded : List ℕ → Modules W → Bool
  module_is_loaded name s = loaded_scan name s.loaded modules_max 0

  -- The search of `module_load`, for `n` more slots: at the first slot that is taken it reads
  -- the name of `module`, which is still a null pointer.
  unfoldable pub search_registered : ℕ → ℕ → Cmd (Modules W) (Option (Module W))
  search_registered zero i s = ret none s
  search_registered (suc n) i s =
      let rest = search_registered n (i + 1) s in
      elim (s.registered i) [ none ↦ rest | some m ↦ fault ]

  -- Whether all of the dependencies are loaded.
  unfoldable pub depends_loaded : List (List ℕ) → Modules W → Bool
  depends_loaded [] s = true
  depends_loaded (name ∷ names) s =
      let rest = depends_loaded names s in if module_is_loaded name s then rest else false

  -- From "if(module->depends)" on; a panic never returns.
  unfoldable pub load_found : Module W → List (List ℕ) → Cmd (Modules W) (Unit {0})
  load_found candidate argv s =
      let ready : Bool = elim candidate.depends [
        | none ↦ true
        | some names ↦ depends_loaded names s
      ] in
      if not ready
      then fail eperm s
      else elim (find_first (λ i. is_free_slot (s.loaded i)) modules_max) [
        | none ↦ fail eperm s
        | some i ↦
            let (code, w) = candidate.init argv s.world in
            if ltℤ code (pos 0)
            then diverge
            else ret tt (record s { loaded = update s.loaded i (some candidate); world = w })
      ]

  -- `module_load`
  unfoldable pub module_load : Option (List ℕ) → List (List ℕ) → Cmd (Modules W) (Unit {0})
  module_load none argv s = fail eperm s
  module_load (some name) argv s =
      if module_is_loaded name s
      then fail eperm s
      else (do
        found ← search_registered modules_max 0
        elim found [ none ↦ throw eperm | some candidate ↦ load_found candidate argv ])
          s

abbrev pub max_modules : ℕ
max_modules = 10

-- `struct ModuleCall` of kernel/modules/module.h. The functions take the numbers that they are
-- given, pointers among them, in the order of their arguments; `open_call` is `open`.
pub record ModuleCall (W : Type 0) : Type 0 where
  pub open_call : Option (ℕ → ℕ → W → ℤ × W)
  pub open_module : Option (ℕ → ℕ → ℕ → ℕ → W → ℤ × W)
  pub seek : Option (ℤ → ℤ → ℕ → W → ℤ × W)
  pub write : Option (ℤ → ℕ → ℕ → W → ℤ × W)
  pub read : Option (ℤ → ℕ → ℕ → W → ℤ × W)
  pub blksize : Option (ℤ → W → ℤ × W)
  pub devsize : Option (ℤ → W → ℤ × W)

module _ {W : Type 0} (mcarr : ℕ → ModuleCall W) where
  -- A call through a pointer of the table, which may be null; the state is `W`.
  unfoldable pub call_pointer : {F : Type 0} → Option F → (F → W → ℤ × W) → Cmd W ℤ
  call_pointer none args w = fail eperm w
  call_pointer (some f) args w = let (r, w') = args f w in ret r w'

  unfoldable pub module_open : ℕ → ℕ → ℕ → Cmd W ℤ
  module_open major ptr length =
      if not (ltb major max_modules)
      then throw einval
      else call_pointer (mcarr major).open_call (λ f. f ptr length)

  -- The guard looks at `mod_major`, the call at `major`: behind the table where that is too large.
  unfoldable pub module_open_device : ℕ → ℕ → ℕ → ℕ → ℕ → Cmd W ℤ
  module_open_device mod_major aux major minor flags =
      if not (ltb mod_major max_modules)
      then throw einval
      else if not (ltb major max_modules)
      then crash
      else call_pointer (mcarr major).open_module (λ f. f aux major minor flags)

  unfoldable pub module_seek : ℕ → ℤ → ℤ → ℕ → Cmd W ℤ
  module_seek major pid offset whence =
      if not (ltb major max_modules)
      then throw einval
      else call_pointer (mcarr major).seek (λ f. f pid offset whence)

  unfoldable pub module_write : ℕ → ℤ → ℕ → ℕ → Cmd W ℤ
  module_write major pid buf count =
      if not (ltb major max_modules)
      then throw einval
      else call_pointer (mcarr major).write (λ f. f pid buf count)

  unfoldable pub module_read : ℕ → ℤ → ℕ → ℕ → Cmd W ℤ
  module_read major pid buf count =
      if not (ltb major max_modules)
      then throw einval
      else call_pointer (mcarr major).read (λ f. f pid buf count)

  unfoldable pub module_blksize : ℕ → ℤ → Cmd W ℤ
  module_blksize major pid =
      if not (ltb major max_modules)
      then throw einval
      else call_pointer (mcarr major).blksize (λ f. f pid)

  unfoldable pub module_devsize : ℕ → ℤ → Cmd W ℤ
  module_devsize major pid =
      if not (ltb major max_modules)
      then throw einval
      else call_pointer (mcarr major).devsize (λ f. f pid)
