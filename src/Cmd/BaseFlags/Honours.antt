-- ===== src/Cmd/BaseFlags/Honours.antt =====
-- pflag's behaviour on the flags that a command declares, and what a value that may be given by a flag becomes.
use orchestrator_relayer.Prelude.{
  ℕ, ◌≡◌, refl, Bool, true, false, [], ◌∷◌, Option, none, some, Bytes, str_eq, if◌then◌else◌,
}
use orchestrator_relayer.Effect.{Result, ok}
use orchestrator_relayer.Cmd.Base.{if_changed}
use orchestrator_relayer.Cmd.BaseFlags.{
  Flags, FlagSet, Default, string_default, bool_default, uint64_default,
}

-- how a name is declared
unfoldable pub default_of : Bytes → FlagSet → Option Default
default_of name [] = none
default_of name ((n, d) ∷ set) = if str_eq n name then some d else default_of name set

-- A flag is read, and has its default value unless it was changed.
abbrev pub Reads : {A : Type 0} → Result A → Bool → A → Type 0
Reads {A} r changed d = (v : A) × (r ≡ ok v) × (changed ≡ false → v ≡ d)

-- pflag's documented behaviour: a flag can be read at the type that it was declared with.
pub record Honours (cmd : Flags) (set : FlagSet) : Type 0 where
  pub strings :
      (name d : Bytes)
      → default_of name set ≡ some (string_default d)
      → Reads (cmd.get_string name) (cmd.changed name) d
  pub bools :
      (name : Bytes) (d : Bool)
      → default_of name set ≡ some (bool_default d)
      → Reads (cmd.get_bool name) (cmd.changed name) d
  pub uint64s :
      (name : Bytes) (d : ℕ)
      → default_of name set ≡ some (uint64_default d)
      → Reads (cmd.get_uint64 name) (cmd.changed name) d

-- a call that returns a value
abbrev pub Read : {A : Type 0} → Result A → Type 0
Read {A} r = (v : A) × (r ≡ ok v)

module _ {cmd : Flags} {set : FlagSet} (honours : Honours cmd set) where
  pub string_value :
      (name : Bytes) {d : Bytes}
      → default_of name set ≡ some (string_default d)
      → Read (cmd.get_string name)
  string_value name {d} h = let (v, e, _) = honours.strings name d h in (v, e)

  pub bool_value :
      (name : Bytes) {d : Bool}
      → default_of name set ≡ some (bool_default d)
      → Read (cmd.get_bool name)
  bool_value name {d} h = let (v, e, _) = honours.bools name d h in (v, e)

  pub uint64_value :
      (name : Bytes) {d : ℕ}
      → default_of name set ≡ some (uint64_default d)
      → Read (cmd.get_uint64 name)
  uint64_value name {d} h = let (v, e, _) = honours.uint64s name d h in (v, e)

-- The flag's value, as it is put into the configuration, if it was changed, and what was there otherwise.
pub data Overridden {A : Type 0} (r : Result A) (adjust : A → A) (changed : Bool) (before after : A)
    : Type 0 where
  by_flag :
      (v : A)
      → r ≡ ok v
      → changed ≡ true
      → after ≡ adjust v
      → Overridden r adjust changed before after
  kept : changed ≡ false → after ≡ before → Overridden r adjust changed before after

pub if_changed-Overridden :
    {A : Type 0} (r : Result A) (adjust : A → A) (v : A) (changed : Bool) (before : A)
    → r ≡ ok v
    → Overridden r adjust changed before (if_changed (adjust v, changed) before)
if_changed-Overridden r adjust v true before h = by_flag v h refl refl
if_changed-Overridden r adjust v false before h = kept refl refl
