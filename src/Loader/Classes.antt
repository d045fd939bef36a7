-- ===== src/Loader/Classes.antt =====
-- The classes that src/diamond/utils/classes.py loads: `load_class_from_name` of
-- src/diamond/util.py and `load_dynamic_class`.
use fullerite.Base.{ℕ, Bool, false, ◌||◌, not, ◌==◌, Option, List, [], ◌∷◌, if◌then◌else◌}
use fullerite.Base.Text.{Str, codes, split, join}
use fullerite.Base.Result.{
  Result, ok, err, type_error, import_error, attribute_error, keyboard_interrupt, system_exit,
  or_raise, ◌>>=◌,
}

-- A class: its identity, its `__name__`, and the classes that it is derived from.
mutual
  pub data Class : Type 0 where
    class : ℕ → Str → Classes → Class

  pub data Classes : Type 0 where
    no_base : Classes
    base : Class → Classes → Classes

abbrev pub identity : Class → ℕ
identity (class i n bs) = i

-- `cls.__name__`
abbrev pub class_name : Class → Str
class_name (class i n bs) = n

-- `cls == other`
abbrev pub same_class : Class → Class → Bool
same_class c d = identity c == identity d

-- `issubclass(cls, other)`: a class is a subclass of itself and of what its bases are subclasses of.
unfoldable mutual
  pub issubclass : Class → Class → Bool
  issubclass (class i n bs) d = (i == identity d) || any_subclass bs d

  pub any_subclass : Classes → Class → Bool
  any_subclass no_base d = false
  any_subclass (base b bs) d = issubclass b d || any_subclass bs d

-- The class `Collector`.
abbrev pub collector_class : Class
collector_class = class 0 (codes "Collector") no_base

-- An attribute's value: a class, or something that `inspect.isclass` refuses.
pub data Object : Type 0 where
  class_object : Class → Object
  other_object : Object

-- What `dir` lists of a module, and what `getattr` gives for a name.
pub record Module : Type 0 where
  pub names : List Str
  pub attribute : Str → Option Object

-- What importing a module does: it may raise an exception, a KeyboardInterrupt or a SystemExit.
pub data Import : Type 0 where
  module_of : Module → Import
  fails : Import
  interrupted : Import
  exits : Import

-- `paths[:-1]` and `paths[-1]`
abbrev pub split_last : List Str → List Str × Str
split_last [] = ([], [])
split_last (s ∷ []) = ([], s)
split_last (s ∷ t ∷ ts) = let (init, last) = split_last (t ∷ ts) in (s ∷ init, last)

-- An ImportError stands for whatever exception a module that fails raises.
abbrev pub imported : Import → Result Module
imported (module_of m) = ok m
imported fails = err import_error
imported interrupted = err keyboard_interrupt
imported exits = err system_exit

abbrev pub as_class : Object → Result Class
as_class (class_object c) = ok c
as_class other_object = err type_error

module _ (import' : Str → Import) where
  -- `load_class_from_name`
  unfoldable pub load_class_from_name : Str → Result Class
  unfolding split
  load_class_from_name fqcn = do
    let paths = split_last (split b'.' fqcn)
    m ← imported (import' (join b'.' paths.0))
    attr ← or_raise (m.attribute paths.1) attribute_error
    as_class attr

  -- `load_dynamic_class`, for a text
  unfoldable pub load_dynamic_class : Str → Class → Result Class
  unfolding load_class_from_name issubclass
  load_dynamic_class fqn subclass = do
    cls ← load_class_from_name fqn
    if same_class cls subclass || not (issubclass cls subclass) then err type_error else ok cls
