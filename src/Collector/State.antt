-- ===== src/Collector/State.antt =====
-- The state of a `Collector`, and the world that its methods act on.
use fullerite.Base.{ℕ, Bool, Option, List}
use fullerite.Base.Int.{ℤ}
use fullerite.Base.Text.{Str}
use fullerite.Base.Dict.{Dict, lookup}
use fullerite.Base.Result.{key_error, or_raise}
use fullerite.Base.Exec.{Exec}
use fullerite.Python.{Float, Num, Value}
use fullerite.Metric.{Dimensions}

-- What `publish_metric` puts into the buffer.
pub record Payload (F : Type 0) : Type 0 where
  pub name : Str
  pub value : Value F
  pub type : Str
  pub dimensions : Dict (Value F)

-- The world: floats, the `re` and `json` libraries, the clock, and the network. `send_ok n` says
-- whether the n-th `sendall` succeeds, `connect_ok n` whether the n-th `connect` does; `float_zero`
-- is the test `x == 0.0`. `dumps` is `json.dumps`, where `none` stands for its TypeError.
pub record World : Type 1 where
  pub float : Float
  pub float_zero : float.Carrier → Bool
  pub matches : Str → Str → Bool
  pub compiles : Str → Bool
  pub dumps : List (Payload float.Carrier) → Option Str
  pub now : ℤ
  pub send_ok : ℕ → Bool
  pub connect_ok : ℕ → Bool

-- The object's fields, with the numbers of `connect` and `sendall` calls made so far, the texts
-- sent, and the number of handlers flushed. `connected` says whether `_socket` is not None.
pub record Collector (F : Type 0) : Type 0 where
  pub name : Str
  pub class_name : Str
  pub connected : Bool
  pub reconnect : Bool
  pub default_dimensions : Option (Dict (Value F))
  pub dimensions : Dimensions F
  pub handlers : ℕ
  pub last_values : Dict (Num F)
  pub payload : List (Payload F)
  pub config : Dict (Value F)
  pub configfile : Dict (Value F)
  pub connects : ℕ
  pub sends : ℕ
  pub sent : List Str
  pub handlers_flushed : ℕ

-- A method of the class, for a world.
abbrev pub Action : World → Type 0 → Type 0
Action w A = Exec (Collector w.float.Carrier) A

-- `self.config[key]`
abbrev pub config_get : {F : Type 0} → Str → Exec (Collector F) (Value F)
config_get key c = (or_raise (lookup key c.config) key_error, c)
