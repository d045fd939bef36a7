-- ===== src/Mongo/Locks/Ignored.antt =====
-- The keys that `_publish_transformed` looks up in the locks of a server.
use fullerite.Base.{ℕ, Bool, ◌≡◌, none, [], arith}
use fullerite.Base.Int.{pos}
use fullerite.Base.Text.{Str, codes, split}
use fullerite.Base.Result.{ok, bind}
use fullerite.Python.{int}
use fullerite.Collector.State.{World}
use fullerite.Json.{number, Fields, get_field}
use fullerite.Mongo.{dotted}
use fullerite.Mongo.Locks.{share, tenth, read_share}

module _ (w : World) (depth : ℕ) (found : Str → Str → Bool) where
  open w use {float, float.{Carrier}}

  -- A key that begins with a dot begins with the empty key.
  share_dot :
      (locks : Fields Carrier) (db after : Str)
      → get_field [] locks ≡ none
      → share w depth found locks (codes ".") db after ≡ ok (number (int (pos 0)))
  unfolding dotted split
  share_dot locks db after h = ground arith

  -- If the locks of a server have no empty key, the time of read locks that is published is a
  -- tenth of the shared one alone: the exclusive one is never found.
  pub read_share-dot :
      (locks : Fields Carrier) (db : Str)
      → get_field [] locks ≡ none
      → read_share w depth found locks db
        ≡ bind
            (share w depth found locks [] db (codes ".timeLockedMicros.r"))
            λ r. tenth w depth found r (number (int (pos 0)))
  read_share-dot locks db h = λ i.
      bind (share w depth found locks [] db (codes ".timeLockedMicros.r")) λ r.
        bind (share_dot locks db (codes ".timeLockedMicros.R") h i) λ all. tenth w depth found r all
