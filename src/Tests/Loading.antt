-- ===== src/Tests/Loading.antt =====
-- Directories with modules of collectors, and what is loaded from them.
use mathlib.Core.Path.{subst}
use fullerite.Base.{◌≡◌, refl, ap, inl, some, List, [], ◌∷◌, arith, All}
use fullerite.Base.Text.{Str, codes, Lacks, split}
use fullerite.Base.Dict.{Dict, lookup, insert, update}
use fullerite.Base.Result.{ok}
use fullerite.Loader.Classes.{
  Class, class, no_base, base, collector_class, Object, class_object, other_object, Module, Import,
  module_of, load_dynamic_class, load_class_from_name, issubclass,
}
use fullerite.Loader.{
  end, entry, file, directory, Root, load_collectors, load_entries, load_file, load_module,
  load_attributes, load_attribute, is_collector, add_class,
}
use fullerite.Loader.Scan.{Outcome, Undotted, load_collectors-Outcome}
use fullerite.Loader.Dynamic.{itself, by_base, here, IsCollector}
use fullerite.Loader.Finds.{Post, Has}
use fullerite.Loader.Complete.{Defines, load_collectors-Finds}

abbrev roots : List Root
roots =
    record {
      path = codes "/a";
      listing = some (
          entry (directory (codes "cpu") (entry (file (codes "cpu.py")) end))
            (entry (file (codes "readme")) end));
    }
    ∷ []

abbrev cpu_class : Class
cpu_class = class 1 (codes "CPUCollector") (base collector_class no_base)

-- the module's class, a parent of collectors, `Collector`, and a module
abbrev attributes : Dict Object
attributes =
    (codes "CPUCollector", class_object cpu_class)
    ∷ (codes "parent_Cpu", class_object (class 2 (codes "Cpu") (base collector_class no_base)))
    ∷ (codes "Collector", class_object collector_class)
    ∷ (codes "os", other_object)
    ∷ []

abbrev cpu_module : Module
cpu_module = record {
  names = codes "CPUCollector" ∷ codes "Collector" ∷ codes "os" ∷ codes "parent_Cpu" ∷ [];
  attribute = λ name. lookup name attributes;
}

abbrev imports : Str → Import
imports name = module_of cpu_module

abbrev names_of : Import → List Str
names_of (module_of m) = m.names
names_of i = []

imports-Undotted : Undotted imports
imports-Undotted f m source e = subst (All (Lacks b'.')) (ap names_of e) (omega arith)

load_collectors-Outcome_example : Outcome (load_collectors imports roots [] [])
load_collectors-Outcome_example = load_collectors-Outcome imports imports-Undotted roots [] [] tt tt

cpu-IsCollector : IsCollector cpu_class
cpu-IsCollector = record { derived = by_base (here (itself refl)); proper = omega arith }

cpu-Defines : Defines imports (codes "cpu.py") (codes "CPUCollector") cpu_module cpu_class
unfolding lookup
cpu-Defines = record {
  source = refl;
  imports = refl;
  listed = refl;
  value = refl;
  collector = cpu-IsCollector;
  undotted = omega arith;
  no_parent = refl;
}

load_collectors-Finds_example :
    Post (Has (codes "CPUCollector")) (load_collectors imports roots [] [])
load_collectors-Finds_example =
    load_collectors-Finds imports (codes "cpu.py") (codes "CPUCollector") cpu_module cpu_class
      cpu-Defines roots [] [] (refl, inl (_, refl, inl (refl, inl refl)))

-- What is found, and that nothing is logged.
loaded : load_collectors imports roots [] [] ≡ (ok ((codes "CPUCollector", cpu_class) ∷ []), [])
unfolding load_collectors load_entries load_file load_module load_attributes load_attribute
    load_dynamic_class load_class_from_name add_class issubclass is_collector insert lookup update
    split
loaded = refl
